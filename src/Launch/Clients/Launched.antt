-- ===== src/Launch/Clients/Launched.antt =====
-- siffleux-cli/src/client.rs: a client from its configuration to its end.
use mathlib.Core.Path.{subst}
use siffleux.Prelude.{
  ℕ, suc, ◌≡◌, ◌≢◌, ◌⊎◌, inl, inr, refl, sym, ap, ◌∙◌, none, some, List, [], ◌∷◌, ◌++◌, All, arith,
  lookup,
}
use siffleux.Ids.Names.{EgressId, egress_id_beq_iff, egress_id_eq}
use siffleux.ByteCounter
use siffleux.ByteCounter.{Counters}
use siffleux.Config.Types.{EgressConfig}
use siffleux.Egress.Boxed.{BoxedEgress, boxed_egress, egress}
use siffleux.Client.Registry
use siffleux.Client.Registry.{Client, Stopped, assign_egress, lookup-assign_egress}
use siffleux.Launch.Clients.{
  Launch, done, failed, panicked, expect, unwrap, Resolver, first_address, lookup_address,
  launch_tcp_egress, launch_udp_egress, launch_egress, launch_egresses, launch_client_with_egresses,
}
use siffleux.Launch.Clients.Registered.{
  config_id, config_target, Distinct, Resolves, AllResolve, Registered, boxed, launch-boxed,
}

boxed-id :
    (resolver : Resolver) (counter token : ℕ) (c : EgressConfig) (r : Resolves resolver c)
    → (egress (boxed resolver counter token c r)).id ≡ config_id c
boxed-id resolver counter token (EgressConfig.tcp c) r = refl
boxed-id resolver counter token (EgressConfig.udp c) r = refl

counter-assign :
    (e : BoxedEgress) (client : Client BoxedEgress)
    → (assign_egress e client).1.byte_counter ≡ client.byte_counter
unfolding assign_egress
counter-assign e client = ground arith

abbrev Free : Client BoxedEgress → List EgressConfig → Type 0
Free client cs = All (λ c. lookup (config_id c) client.egress_by_id ≡ none) cs

free-assign :
    (e : BoxedEgress) (client : Client BoxedEgress)
    → lookup (egress e).id client.egress_by_id ≡ none
    → (unwrap (expect (assign_egress e client)) ≡ done (assign_egress e client).1)
      × (lookup (egress e).id (assign_egress e client).1.egress_by_id ≡ some e)
      × ((k : EgressId)
          → k ≢ (egress e).id
          → lookup k (assign_egress e client).1.egress_by_id ≡ lookup k client.egress_by_id)
free-assign e client free = elim (lookup-assign_egress e client) [
  | inl (_, assigned, gets) ↦ (
    rw assigned refl,
    ground (arith, gets (egress e).id, egress_id_beq_iff (egress e).id (egress e).id),
    λ k apart. ground (arith, gets k, egress_id_beq_iff (egress e).id k),
  )
  | inr (f, taken, _) ↦ absurd (cc (taken, free))
]

Free-assign :
    (e : BoxedEgress) (client : Client BoxedEgress) (c : EgressConfig) (cs : List EgressConfig)
    → lookup (egress e).id client.egress_by_id ≡ none
    → (egress e).id ≡ config_id c
    → All (λ d. config_id d ≢ config_id c) cs
    → Free client cs
    → Free (assign_egress e client).1 cs
Free-assign e client c [] free same apart all = tt
Free-assign e client c (d ∷ cs) free same apart all = (
  (free-assign e client free).2 (config_id d) (rw same apart.0) ∙ all.0,
  Free-assign e client c cs free same apart.1 all.1,
)

module _ (resolver : Resolver) where
  record Launched (token : ℕ) (cs : List EgressConfig) (r : AllResolve resolver cs)
      (client : Client BoxedEgress) : Type 0 where
    pub launched_client : Client BoxedEgress
    pub launched : launch_egresses resolver token cs client ≡ done launched_client
    pub registered : Registered resolver client.byte_counter token cs r launched_client
    pub others :
        (k : EgressId)
        → All (λ c. config_id c ≢ k) cs
        → lookup k launched_client.egress_by_id ≡ lookup k client.egress_by_id

  launch_total :
      (token : ℕ) (cs : List EgressConfig) (r : AllResolve resolver cs)
      (client : Client BoxedEgress)
      → Distinct cs
      → Free client cs
      → Launched token cs r client
  unfolding launch_egresses
  launch_total token [] r client distinct free = record {
    launched_client = client;
    launched = refl;
    registered = tt;
    others = λ k _. refl;
  }
  launch_total token (c ∷ cs) r client distinct free =
      let e = boxed resolver client.byte_counter token c r.0 in
      let own = boxed-id resolver client.byte_counter token c r.0 in
      let unused : lookup (egress e).id client.egress_by_id ≡ none = rw own free.0 in
      let (assigned, found, kept) = free-assign e client unused in
      let rest =
        launch_total (suc token) cs r.1 (assign_egress e client).1 distinct.1
          (Free-assign e client c cs unused own distinct.0 free.1) in
      record {
        launched_client = rest.launched_client;
        launched = rw (launch-boxed resolver token client c r.0, assigned) rest.launched;
        registered = (
          ap (λ k. lookup k rest.launched_client.egress_by_id) (sym own)
              ∙ rest.others (egress e).id (rw own distinct.0)
              ∙ found,
          subst (λ n. Registered resolver n (suc token) cs r.1 rest.launched_client)
              (counter-assign e client) rest.registered,
        );
        others = λ k apart. rest.others k apart.1 ∙ kept k (λ h. apart.0 (sym (h ∙ own)));
      }

empty-Free :
    (client : Client BoxedEgress) (cs : List EgressConfig)
    → client.egress_by_id ≡ []
    → Free client cs
unfolding lookup
empty-Free client [] h = tt
empty-Free client (c ∷ cs) h = (rw h refl, empty-Free client cs h)

-- A client that has started from a configuration.
pub record Started (resolver : Resolver) (cs : List EgressConfig) (r : AllResolve resolver cs)
    (counters : Counters) : Type 0 where
  pub client : Client BoxedEgress
  pub counters' : Counters
  pub launched : launch_client_with_egresses resolver cs counters ≡ done (client, counters')
  pub registered : Registered resolver (ByteCounter.new none counters).0 0 cs r client
  pub no_other :
      (k : EgressId) → All (λ c. config_id c ≢ k) cs → lookup k client.egress_by_id ≡ none

-- When every name of the configuration is found and every hash is base64, and the ids of the egresses are
-- distinct, a client starts: every egress is found under its own id, started, with the first address of
-- its target, and with the first address, the name, the hash and the key of its server to get tunnels
-- by; and no other id is found.
pub launch_client_total :
    (resolver : Resolver) (cs : List EgressConfig) (r : AllResolve resolver cs)
    (counters : Counters)
    → Distinct cs
    → Started resolver cs r counters
unfolding launch_client_with_egresses Registry.new lookup
launch_client_total resolver cs r counters distinct =
    let client = (Registry.new {E = BoxedEgress} counters).0 in
    let l = launch_total resolver 0 cs r client distinct (empty-Free client cs refl) in
    record {
      client = l.launched_client;
      counters' = (Registry.new {E = BoxedEgress} counters).1;
      launched = rw l.launched refl;
      registered = l.registered;
      no_other = λ k apart. l.others k apart;
    }

unwrap-cases : {A : Type 0} (m : Launch A) → ((a : A) × (unwrap m ≡ done a)) ⊎ (unwrap m ≡ panicked)
unwrap-cases (done a) = inl (a, refl)
unwrap-cases (failed e) = inr refl
unwrap-cases panicked = inr refl

launch_egress-cases :
    (resolver : Resolver) (token : ℕ) (client : Client BoxedEgress) (c : EgressConfig)
    → ((a : Client BoxedEgress) × (launch_egress resolver token client c ≡ done a))
      ⊎ (launch_egress resolver token client c ≡ panicked)
unfolding launch_egress
launch_egress-cases resolver token client (EgressConfig.tcp c) =
    unwrap-cases (launch_tcp_egress resolver token client c)
launch_egress-cases resolver token client (EgressConfig.udp c) =
    unwrap-cases (launch_udp_egress resolver token client c)

unresolved-panics :
    (resolver : Resolver) (token : ℕ) (client : Client BoxedEgress) (c : EgressConfig)
    → first_address (resolver.lookup_host (config_target c)) ≡ none
    → launch_egress resolver token client c ≡ panicked
unfolding launch_egress launch_tcp_egress launch_udp_egress lookup_address
unresolved-panics resolver token client (EgressConfig.tcp c) h = rw h refl
unresolved-panics resolver token client (EgressConfig.udp c) h = rw h refl

-- One egress whose target's name has no address keeps the whole client from starting, the egresses before
-- it included.
pub unresolved_panics :
    (resolver : Resolver) (token : ℕ) (before after : List EgressConfig) (c : EgressConfig)
    (client : Client BoxedEgress)
    → first_address (resolver.lookup_host (config_target c)) ≡ none
    → launch_egresses resolver token (before ++ (c ∷ after)) client ≡ panicked
unfolding launch_egresses
unresolved_panics resolver token [] after c client h =
    rw (unresolved-panics resolver token client c h) refl
unresolved_panics resolver token (x ∷ before) after c client h =
    elim (launch_egress-cases resolver token client x) [
      | inl (a, e) ↦ rw e (unresolved_panics resolver (suc token) before after c a h)
      | inr e ↦ rw e refl
    ]
