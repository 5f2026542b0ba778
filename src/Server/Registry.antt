-- ===== src/Server/Registry.antt =====
-- siffleux/src/server/server.rs: the registry of ingresses, and listening and stopping.
use siffleux.Tunnel.{Tunnel}
use siffleux.Prelude.{
  map, ℕ, ◌≡◌, none, some, lookup, lookup-insert, arith, bytes_beq, if◌then◌else◌, Option-cases,
  inl, inr, ◌⊎◌,
}
use siffleux.Error.{
  ok, err, ingress_id_already_assigned, server_already_listening, server_not_listening,
}
use siffleux.Ids.Names.{IngressId, ingress_id_eq, ingress_id_beq_iff}
use siffleux.Ingress.Trait.{Ingress}
use siffleux.Server.{Server, get_ingress_by_id, assign_ingress, listen, stop, update_ingress}

-- Every ingress is registered under its own id.
pub record IsWellFormed {I : Type 0} ⦃t : Ingress I⦄ (s : Server I) : Type 0 where
  pub keyed : (k : IngressId) (i : I) → get_ingress_by_id k s ≡ some i → t.id i ≡ k

module _ {I : Type 0} ⦃t : Ingress I⦄ where
  -- An ingress whose id is free is found under it afterwards, and every other id finds what it did; one
  -- whose id is taken is refused, and the registry stays.
  pub get-assign :
      (i : I) (s : Server I)
      → ((get_ingress_by_id (t.id i) s ≡ none)
          × ((assign_ingress i s).0 ≡ ok tt)
          × ((k : IngressId)
              → get_ingress_by_id k (assign_ingress i s).1
                ≡ (if bytes_beq (t.id i).value k.value then some i else get_ingress_by_id k s)))
        ⊎ ((j : I) × (get_ingress_by_id (t.id i) s ≡ some j)
            × (assign_ingress i s ≡ (err (ingress_id_already_assigned (t.id i)), s)))
  unfolding get_ingress_by_id assign_ingress
  get-assign i s = elim (Option-cases (lookup (t.id i) s.ingress_by_id)) [
    | inl e ↦ inl (
      e,
      rw (e, assign_ingress),
      λ k. rw (e, assign_ingress) (lookup-insert (t.id i) k i s.ingress_by_id),
    )
    | inr (j, e) ↦ inr (j, e, rw (e, assign_ingress))
  ]

  keyed-assign :
      (i : I) (s : Server I)
      → IsWellFormed s
      → (k : IngressId) (j : I) → get_ingress_by_id k (assign_ingress i s).1 ≡ some j
      → t.id j ≡ k
  keyed-assign i s w k j h = elim (get-assign i s) [
    | inl free ↦ ground (arith, free.2 k, ingress_id_beq_iff (t.id i) k, w.keyed k j)
    | inr (old, _, taken) ↦ ground (arith, taken, w.keyed k j)
  ]

  pub assign-IsWellFormed :
      (i : I) (s : Server I) → IsWellFormed s → IsWellFormed (assign_ingress i s).1
  assign-IsWellFormed i s w = record { keyed = keyed-assign i s w }

  pub get-update :
      (k : IngressId) (i : I) (s : Server I) (j : IngressId) {old : I}
      → get_ingress_by_id k s ≡ some old
      → get_ingress_by_id j (update_ingress k i s)
        ≡ (if bytes_beq k.value j.value then some i else get_ingress_by_id j s)
  unfolding get_ingress_by_id update_ingress
  get-update k i s j e = rw (e, update_ingress) (lookup-insert k j i s.ingress_by_id)

  -- A tunnel that is assigned to an ingress of the registry leaves every ingress under its own id.
  pub assign_tunnel-IsWellFormed :
      (tunnel : Tunnel) (k : IngressId) (i : I) (s : Server I)
      → IsWellFormed s
      → get_ingress_by_id k s ≡ some i
      → IsWellFormed (update_ingress k (t.assign_tunnel tunnel i).1 s)
  assign_tunnel-IsWellFormed tunnel k i s w e = record {
    keyed = λ j a h. ground (
      arith,
      get-update k (t.assign_tunnel tunnel i).1 s j e,
      w.keyed k i e,
      w.keyed j a,
      t.id-assign_tunnel tunnel i,
      ingress_id_beq_iff k j,
    );
  }

  -- A server that does not listen starts to listen when its address is bound, refuses to listen
  -- twice and changes nothing by it, and after `stop` has no ingress, has stopped each ingress that it
  -- had, has closed its endpoint, refuses to stop twice, and can listen again.
  pub stop-listen :
      (s : Server I) (e f : ℕ)
      → s.endpoint ≡ none
      → let listening = (listen (ok e) s).1 in
        let stopped = stop listening in
        ((listen (ok e) s).0 ≡ ok tt)
        × (listen (ok f) listening ≡ (err server_already_listening, listening))
        × (stopped.result ≡ ok tt)
        × (stopped.ingresses ≡ map (λ entry. t.stop entry.1) s.ingress_by_id)
        × (stopped.close ≡ some (0, "done"))
        × ((k : IngressId) → get_ingress_by_id k stopped.server ≡ none)
        × ((stop stopped.server).result ≡ err server_not_listening)
        × ((listen (ok f) stopped.server).0 ≡ ok tt)
  unfolding listen stop get_ingress_by_id lookup
  stop-listen s e f h = (
    ground arith,
    ground arith,
    ground arith,
    ground arith,
    ground arith,
    λ k. ground arith,
    ground arith,
    ground arith,
  )
