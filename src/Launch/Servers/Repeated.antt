-- ===== src/Launch/Servers/Repeated.antt =====
-- siffleux-cli/src/server.rs: two ingresses with one id.
use siffleux.Prelude.{
  Bool-cases, bytes_beq, ℕ, suc, ◌≡◌, ◌⊎◌, inl, inr, refl, some, List, [], ◌∷◌, ◌++◌, arith,
}
use siffleux.Error.{Result, ok, err, panic}
use siffleux.Ids.Names.{IngressId, ingress_id_beq_iff}
use siffleux.Frames.{SocketAddr}
use siffleux.Config.Types.{IngressConfig}
use siffleux.Ingress.Trait.{Bound}
use siffleux.Ingress.Boxed
use siffleux.Ingress.Boxed.{BoxedIngress, boxed_ingress}
use siffleux.Ingress.Tcp
use siffleux.Ingress.Tcp.{TcpIngress}
use siffleux.Ingress.Udp
use siffleux.Ingress.Udp.{UdpIngress}
use siffleux.Server.{Server, get_ingress_by_id, assign_ingress}
use siffleux.Server.Registry.{get-assign}
use siffleux.Launch.Servers.{
  started, launch_tcp_ingress, launch_udp_ingress, launch_ingress, launch_ingresses,
}
use siffleux.Launch.Servers.Registered.{config_id}

-- An unwrapped start gives the ingress or panics.
started-cases :
    {I : Type 0} (r : Result (Unit {0}) × I) → (started r ≡ ok r.1) ⊎ (started r ≡ panic)
started-cases (ok _, i) = inl refl
started-cases (err e, i) = inr refl
started-cases (panic, i) = inr refl

tcp_id-start : (b : Bound) (s : TcpIngress) → (Tcp.start b s).1.id ≡ s.id
unfolding Tcp.start Tcp.bind
tcp_id-start b s = ground arith

udp_id-start : (b : Bound) (s : UdpIngress) → (Udp.start b s).1.id ≡ s.id
unfolding Udp.start Udp.bind
udp_id-start b s = ground arith

module _ (bind : ℕ → SocketAddr → Bound) where
  launch-cases :
      (n : ℕ) (c : IngressConfig)
      → ((i : BoxedIngress) × (launch_ingress bind n c ≡ ok i) × (Boxed.id i ≡ config_id c))
        ⊎ (launch_ingress bind n c ≡ panic)
  unfolding launch_ingress launch_tcp_ingress launch_udp_ingress Tcp.new Udp.new
  launch-cases n (IngressConfig.tcp c) =
      let fresh = Tcp.new c.id c.auth_key c.addr in
      elim (started-cases (Tcp.start (bind n c.addr) fresh)) [
        | inl e ↦ inl (
          BoxedIngress.tcp (Tcp.start (bind n c.addr) fresh).1,
          rw e refl,
          tcp_id-start (bind n c.addr) fresh,
        )
        | inr e ↦ inr (rw e refl)
      ]
  launch-cases n (IngressConfig.udp c) =
      let fresh = Udp.new c.id c.auth_key c.addr in
      elim (started-cases (Udp.start (bind n c.addr) fresh)) [
        | inl e ↦ inl (
          BoxedIngress.udp (Udp.start (bind n c.addr) fresh).1,
          rw e refl,
          udp_id-start (bind n c.addr) fresh,
        )
        | inr e ↦ inr (rw e refl)
      ]

  -- An id that is taken stays taken.
  taken-assign :
      (k : IngressId) (j i : BoxedIngress) (s : Server BoxedIngress)
      → get_ingress_by_id k s ≡ some j
      → (a : BoxedIngress) × (get_ingress_by_id k (assign_ingress i s).1 ≡ some a)
  taken-assign k j i s h = elim (get-assign i s) [
    | inl (_, _, gets) ↦ elim (Bool-cases (bytes_beq (Boxed.id i).value k.value)) [
      | inl e ↦ (i, ground (arith, gets k))
      | inr e ↦ (j, ground (arith, gets k))
    ]
    | inr (_, _, kept) ↦ (j, rw kept h)
  ]

  -- Launching an ingress under an id that is taken panics, after any others.
  taken-panics :
      (n : ℕ) (before after : List IngressConfig) (d : IngressConfig) (j : BoxedIngress)
      (s : Server BoxedIngress)
      → get_ingress_by_id (config_id d) s ≡ some j
      → launch_ingresses bind n (before ++ (d ∷ after)) s ≡ panic
  unfolding launch_ingresses
  taken-panics n [] after d j s h = elim (launch-cases n d) [
    | inl (i, made, same) ↦ elim (get-assign i s) [
      | inl (e, _, _) ↦ absurd (cc (e, h, same))
      | inr (_, _, refused) ↦ rw (made, refused) refl
    ]
    | inr e ↦ rw e refl
  ]
  taken-panics n (c ∷ before) after d j s h = elim (launch-cases n c) [
    | inl (i, made, _) ↦ elim (started-cases (assign_ingress i s)) [
      | inl e ↦
          rw (made, e)
            (let (a, g) = taken-assign (config_id d) j i s h in
              taken-panics (suc n) before after d a (assign_ingress i s).1 g)
      | inr e ↦ rw (made, e) refl
    ]
    | inr e ↦ rw e refl
  ]

  -- Two ingresses with one id never start together, wherever they stand and whatever can be bound.
  pub repeated_id_panics :
      (n : ℕ) (before middle after : List IngressConfig) (c d : IngressConfig)
      (s : Server BoxedIngress)
      → config_id d ≡ config_id c
      → launch_ingresses bind n (before ++ (c ∷ (middle ++ (d ∷ after)))) s ≡ panic
  unfolding launch_ingresses
  repeated_id_panics n [] middle after c d s same = elim (launch-cases n c) [
    | inl (i, made, own) ↦ elim (get-assign i s) [
      | inl (_, assigned, gets) ↦
          rw (made, assigned)
            (taken-panics (suc n) middle after d i (assign_ingress i s).1
              (ground (arith, gets (config_id d), ingress_id_beq_iff (Boxed.id i) (config_id d))))
      | inr (_, _, refused) ↦ rw (made, refused) refl
    ]
    | inr e ↦ rw e refl
  ]
  repeated_id_panics n (x ∷ before) middle after c d s same = elim (launch-cases n x) [
    | inl (i, made, _) ↦ elim (started-cases (assign_ingress i s)) [
      | inl e ↦
          rw (made, e)
            (repeated_id_panics (suc n) before middle after c d (assign_ingress i s).1 same)
      | inr e ↦ rw (made, e) refl
    ]
    | inr e ↦ rw e refl
  ]
