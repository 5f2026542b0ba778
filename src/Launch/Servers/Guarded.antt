-- ===== src/Launch/Servers/Guarded.antt =====
-- siffleux-cli/src/server.rs: a launched server, whatever happens to it, until it is shut down.
use mathlib.Core.List.{Memᴰ}
use mathlib.Core.List.Memᴰ.{head, tail}
use siffleux.Prelude.{
  Bool, none, ℕ, suc, ◌≡◌, ◌≢◌, ◌⊎◌, inl, inr, refl, sym, ap, ◌∙◌, some, List, [], ◌∷◌, All, arith,
  Bool-cases, bytes_beq,
}
use siffleux.Error.{ok}
use siffleux.Ids.Names.{IngressId, ingress_id_beq_iff}
use siffleux.Frames.{SocketAddr}
use siffleux.ByteCounter.{Counters}
use siffleux.Certificates.{Certificate}
use siffleux.Config.Types.{IngressConfig, ServerConfig}
use siffleux.Ingress.Trait.{Bound}
use siffleux.Ingress.Boxed
use siffleux.Ingress.Boxed.{BoxedIngress, boxed_ingress}
use siffleux.Server
use siffleux.Server.{Server, Stopped, get_ingress_by_id}
use siffleux.System.{Happening, World, run, live_run}
use siffleux.System.Aborted.{Died, live_run-cases}
use siffleux.System.Kept.{endpoint-run, Found-run}
use siffleux.System.Granted.{Granted}
use siffleux.System.Authenticated.{IsFresh, tunnels_authenticated}
use siffleux.Launch.Servers.{Host, shut_down, launch_server_with_ingresses}
use siffleux.Launch.Servers.Registered.{config_id, config_key, Registered, Distinct}
use siffleux.Launch.Servers.Started.{Allows, Started, launch_server_total}

-- Each id is that of an ingress that was registered, or of none.
Registered-cases :
    (bind : ℕ → SocketAddr → Bound) (n : ℕ) (cs : List IngressConfig) (s : Server BoxedIngress)
    (k : IngressId)
    → Registered bind n cs s
    → All (λ c. config_id c ≢ k) cs
      ⊎ ((i : BoxedIngress) × (get_ingress_by_id k s ≡ some i)
          × (Boxed.id i ≡ k)
          × ((Boxed.pool i).tunnels ≡ []))
Registered-cases bind n [] s k r = inl tt
Registered-cases bind n (c ∷ cs) s k ((i, found, l), r) =
    elim (Bool-cases (bytes_beq (config_id c).value k.value)) [
      | inl e ↦
          let same : config_id c ≡ k = (ingress_id_beq_iff (config_id c) k).0 e in
          inr (i, rw (sym same) found, l.id ∙ same, ap (λ p. p.tunnels) l.pool)
      | inr e ↦ elim (Registered-cases bind (suc n) cs s k r) [
        | inl all ↦ inl (λ same. ground (arith, ingress_id_beq_iff (config_id c) k), all)
        | inr t ↦ inr t
      ]
    ]

Registered-of :
    (bind : ℕ → SocketAddr → Bound) (n : ℕ) (cs : List IngressConfig) (s : Server BoxedIngress)
    (c : IngressConfig)
    → Memᴰ c cs
    → Registered bind n cs s
    → (i : BoxedIngress) × (get_ingress_by_id (config_id c) s ≡ some i)
      × (Boxed.auth_key i ≡ config_key c)
Registered-of bind n [] s c m r = elim m [ ]
Registered-of bind n (x ∷ cs) s c (head e) ((i, found, l), r) = rw e (i, found, l.auth_key)
Registered-of bind n (x ∷ cs) s c (tail m) (l, r) = Registered-of bind (suc n) cs s c m r

module _ {Files : Type 0} (host : Host Files) where
  Started-IsFresh :
      (config : ServerConfig) (ingresses : List IngressConfig) (files : Files) (counters : Counters)
      (certificate : Certificate) (st : Started host config ingresses files counters certificate)
      → IsFresh st.server
  Started-IsFresh config ingresses files counters certificate st = record {
    keyed = record {
      keyed = λ k i h. elim (Registered-cases host.bind 0 ingresses st.server k st.registered) [
        | inl all ↦ absurd (cc (st.no_other k all, h))
        | inr (j, found, same, _) ↦ let e : i ≡ j = cc (found, h) in rw e same
      ];
    };
    no_tunnels = λ k i h. elim (Registered-cases host.bind 0 ingresses st.server k st.registered) [
      | inl all ↦ absurd (cc (st.no_other k all, h))
      | inr (j, found, _, empty) ↦ let e : i ≡ j = cc (found, h) in rw e empty
    ];
  }

  -- The server after all that has happened, for one of its configured ingresses.
  pub record Standing (past : List Happening) (c : IngressConfig) (now : World) : Type 0 where
    pub ingress : BoxedIngress
    pub found : get_ingress_by_id (config_id c) now.0 ≡ some ingress
    pub granted : All (Granted past (config_id c) (config_key c)) (Boxed.pool ingress).tunnels
    pub stopped : Stopped BoxedIngress
    pub shut : shut_down now.0 ≡ ok stopped

  -- A launched server, and what has become of its process.
  pub record Guarded (aborts : Bool) (config : ServerConfig) (ingresses : List IngressConfig)
      (files : Files) (counters : Counters) (past : List Happening) (c : IngressConfig)
      : Type 0 where
    pub world : World
    pub launched : (launch_server_with_ingresses host config ingresses files counters).0 ≡ ok world
    pub fate :
        ((now : World) × (live_run aborts past world ≡ some now) × Standing past c now)
        ⊎ ((live_run aborts past world ≡ none) × Died aborts past world)

  -- A server that is launched from a configuration whose ingresses have distinct ids, where the operating
  -- system and the libraries allow it, starts. Whatever then happens to its connections, its ingresses and
  -- their tasks, either the process still runs, or the build aborts on panics and one of the tasks has panicked.
  -- While the process runs, each configured ingress is found under its id, each of its tunnels has the id
  -- that was made for a connection whose first frame named that ingress and held the key of the configuration,
  -- and shutting the server down does not panic.
  pub launched-Guarded :
      (aborts : Bool) (config : ServerConfig) (ingresses : List IngressConfig) (files : Files)
      (counters : Counters) (past : List Happening) (c : IngressConfig)
      → Allows host config ingresses files
      → Distinct ingresses
      → Memᴰ c ingresses
      → Guarded aborts config ingresses files counters past c
  unfolding shut_down Server.stop
  launched-Guarded aborts config ingresses files counters past c a distinct m =
      let st = launch_server_total host config ingresses files counters a distinct in
      let w : World = (st.server, st.counters') in
      let (i, found, key) = Registered-of host.bind 0 ingresses st.server c m st.registered in
      let (j, now) = Found-run (config_id c) past w (i, found) in
      let fresh = Started-IsFresh config ingresses files counters a.certificate st in
      let (i₀, was, all) = tunnels_authenticated w past (config_id c) j fresh now in
      let same : Boxed.auth_key i₀ ≡ config_key c = cc (was, found, key) in
      let (e, listening) = st.listening in
      let standing : Standing past c (run past w) = record {
        ingress = j;
        found = now;
        granted = rw (sym same) all;
        stopped = Server.stop (run past w).0;
        shut = rw (endpoint-run past w ∙ listening, Server.stop) refl;
      } in
      record {
        world = w;
        launched = st.started;
        fate = elim (live_run-cases aborts past w) [
          | inl lives ↦ inl (run past w, lives, standing)
          | inr died ↦ inr died
        ];
      }
