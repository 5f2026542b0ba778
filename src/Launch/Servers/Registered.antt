-- ===== src/Launch/Servers/Registered.antt =====
-- siffleux-cli/src/server.rs: which ingresses a started server has.
use siffleux.Prelude.{
  arith, inl, inr, ap, sym, ◌∙◌, ℕ, suc, ◌≡◌, ◌≢◌, refl, Option, none, some, List, [], ◌∷◌, All,
}
use siffleux.Error.{ok}
use siffleux.Ids.Names.{ingress_id_beq_iff, IngressId, AuthKey}
use siffleux.Frames.{SocketAddr}
use siffleux.Config.Types.{IngressConfig}
use siffleux.Ingress.Trait.{Bound}
use siffleux.Ingress.Pool
use siffleux.Ingress.Boxed
use siffleux.Ingress.Boxed.{BoxedIngress, boxed_ingress}
use siffleux.Ingress.Tcp
use siffleux.Ingress.Udp
use siffleux.Server.{assign_ingress, Server, get_ingress_by_id}
use siffleux.Server.Registry.{get-assign}
use siffleux.Launch.Servers.{launch_ingresses, started, launch_ingress}

abbrev pub config_id : IngressConfig → IngressId
config_id (IngressConfig.tcp c) = c.id
config_id (IngressConfig.udp c) = c.id

abbrev pub config_key : IngressConfig → AuthKey
config_key (IngressConfig.tcp c) = c.auth_key
config_key (IngressConfig.udp c) = c.auth_key

abbrev pub config_addr : IngressConfig → SocketAddr
config_addr (IngressConfig.tcp c) = c.addr
config_addr (IngressConfig.udp c) = c.addr

-- The socket of an ingress that listens.
abbrev pub socket_of : BoxedIngress → Option ℕ
socket_of (BoxedIngress.tcp s) = s.tcp_listener
socket_of (BoxedIngress.udp s) = elim s.udp_socket [ none ↦ none | some e ↦ some e.0 ]

abbrev pub Distinct : List IngressConfig → Type 0
Distinct [] = Unit {0}
Distinct (c ∷ cs) = All (λ d. config_id d ≢ config_id c) cs × Distinct cs

module _ (bind : ℕ → SocketAddr → Bound) where
  -- The address of the configuration of that number can be bound.
  pub record CanBind (n : ℕ) (c : IngressConfig) : Type 0 where
    pub socket : ℕ
    pub local_addr : SocketAddr
    pub bound : bind n (config_addr c) ≡ ok (socket, ok local_addr)

  abbrev pub AllBind : ℕ → List IngressConfig → Type 0
  AllBind n [] = Unit {0}
  AllBind n (c ∷ cs) = CanBind n c × AllBind (suc n) cs

  -- The ingress of a configuration: its id and key, no tunnel yet, and the socket that was bound for it.
  pub record Listens (n : ℕ) (c : IngressConfig) (i : BoxedIngress) : Type 0 where
    pub id : Boxed.id i ≡ config_id c
    pub auth_key : Boxed.auth_key i ≡ config_key c
    pub pool : Boxed.pool i ≡ Pool.empty
    pub socket : ℕ
    pub local_addr : SocketAddr
    pub bound : bind n (config_addr c) ≡ ok (socket, ok local_addr)
    pub listening : socket_of i ≡ some socket

  -- Each configuration's ingress is found under the configuration's id.
  abbrev pub Registered : ℕ → List IngressConfig → Server BoxedIngress → Type 0
  Registered n [] s = Unit {0}
  Registered n (c ∷ cs) s =
      ((i : BoxedIngress) × (get_ingress_by_id (config_id c) s ≡ some i) × Listens n c i)
      × Registered (suc n) cs s

  launch-Listens :
      (n : ℕ) (c : IngressConfig)
      → CanBind n c
      → (i : BoxedIngress) × (launch_ingress bind n c ≡ ok i) × Listens n c i
  unfolding launch_ingress Tcp.start Udp.start Tcp.bind Udp.bind Tcp.new Udp.new
  launch-Listens n (IngressConfig.tcp c) b = (
    BoxedIngress.tcp
        (Tcp.start (ok (b.socket, ok b.local_addr)) (Tcp.new c.id c.auth_key c.addr)).1,
    rw b.bound,
    record {
      id = refl;
      auth_key = refl;
      pool = refl;
      socket = b.socket;
      local_addr = b.local_addr;
      bound = b.bound;
      listening = refl;
    },
  )
  launch-Listens n (IngressConfig.udp c) b = (
    BoxedIngress.udp
        (Udp.start (ok (b.socket, ok b.local_addr)) (Udp.new c.id c.auth_key c.addr)).1,
    rw b.bound,
    record {
      id = refl;
      auth_key = refl;
      pool = refl;
      socket = b.socket;
      local_addr = b.local_addr;
      bound = b.bound;
      listening = refl;
    },
  )

free-assign :
    (i : BoxedIngress) (s : Server BoxedIngress)
    → get_ingress_by_id (Boxed.id i) s ≡ none
    → (started (assign_ingress i s) ≡ ok (assign_ingress i s).1)
      × (get_ingress_by_id (Boxed.id i) (assign_ingress i s).1 ≡ some i)
      × ((k : IngressId)
          → k ≢ Boxed.id i
          → get_ingress_by_id k (assign_ingress i s).1 ≡ get_ingress_by_id k s)
free-assign i s free = elim (get-assign i s) [
  | inl (e, assigned, gets) ↦ (
    rw assigned refl,
    ground (arith, gets (Boxed.id i), ingress_id_beq_iff (Boxed.id i) (Boxed.id i)),
    λ k apart. ground (arith, gets k, ingress_id_beq_iff (Boxed.id i) k),
  )
  | inr (j, e, _) ↦ absurd (cc (e, free))
]

kept-assign :
    (i : BoxedIngress) (s : Server BoxedIngress)
    → ((assign_ingress i s).1.endpoint ≡ s.endpoint)
      × ((assign_ingress i s).1.certificate_hash ≡ s.certificate_hash)
unfolding assign_ingress
kept-assign i s = ground arith

abbrev pub Free : Server BoxedIngress → List IngressConfig → Type 0
Free s cs = All (λ c. get_ingress_by_id (config_id c) s ≡ none) cs

Free-assign :
    (i : BoxedIngress) (s : Server BoxedIngress) (c : IngressConfig) (cs : List IngressConfig)
    → get_ingress_by_id (Boxed.id i) s ≡ none
    → Boxed.id i ≡ config_id c
    → All (λ d. config_id d ≢ config_id c) cs
    → Free s cs
    → Free (assign_ingress i s).1 cs
Free-assign i s c [] free same apart all = tt
Free-assign i s c (d ∷ cs) free same apart all = (
  (free-assign i s free).2 (config_id d) (rw same apart.0) ∙ all.0,
  Free-assign i s c cs free same apart.1 all.1,
)

module _ (bind : ℕ → SocketAddr → Bound) where
  -- What launching the ingresses comes to.
  pub record Launched (n : ℕ) (cs : List IngressConfig) (s : Server BoxedIngress) : Type 0 where
    pub server : Server BoxedIngress
    pub launched : launch_ingresses bind n cs s ≡ ok server
    pub registered : Registered bind n cs server
    pub others :
        (k : IngressId)
        → All (λ c. config_id c ≢ k) cs
        → get_ingress_by_id k server ≡ get_ingress_by_id k s
    pub endpoint : server.endpoint ≡ s.endpoint
    pub certificate_hash : server.certificate_hash ≡ s.certificate_hash

  pub launch_total :
      (n : ℕ) (cs : List IngressConfig) (s : Server BoxedIngress)
      → Distinct cs
      → Free s cs
      → AllBind bind n cs
      → Launched n cs s
  unfolding launch_ingresses
  launch_total n [] s distinct free b = record {
    server = s;
    launched = refl;
    registered = tt;
    others = λ k _. refl;
    endpoint = refl;
    certificate_hash = refl;
  }
  launch_total n (c ∷ cs) s distinct free b =
      let (i, made, l) = launch-Listens bind n c b.0 in
      let unused : get_ingress_by_id (Boxed.id i) s ≡ none = rw l.id free.0 in
      let (assigned, found, kept) = free-assign i s unused in
      let rest =
        launch_total (suc n) cs (assign_ingress i s).1 distinct.1
          (Free-assign i s c cs unused l.id distinct.0 free.1) b.1 in
      record {
        server = rest.server;
        launched = rw (made, assigned) rest.launched;
        registered = (
          (
            i,
            ap (λ k. get_ingress_by_id k rest.server) (sym l.id)
                ∙ rest.others (Boxed.id i) (rw l.id distinct.0)
                ∙ found,
            l,
          ),
          rest.registered,
        );
        others = λ k apart. rest.others k apart.1 ∙ kept k (λ e. apart.0 (sym (e ∙ l.id)));
        endpoint = rest.endpoint ∙ (kept-assign i s).0;
        certificate_hash = rest.certificate_hash ∙ (kept-assign i s).1;
      }
