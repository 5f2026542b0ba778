-- ===== src/Client/Registry.antt =====
-- siffleux/src/client/client.rs: the client's registry of egresses.
use siffleux.Prelude.{
  refl, ℕ, ◌≡◌, ◌⊎◌, inl, inr, none, some, List, [], map, lookup, insert, lookup-insert, arith,
  Option-cases, bytes_beq, if◌then◌else◌,
}
use siffleux.Error.{Result, ok, err, egress_id_already_assigned}
use siffleux.Ids.Names.{EgressId, egress_id_eq}
use siffleux.ByteCounter
use siffleux.ByteCounter.{Counters}
use siffleux.Egress.Trait.{EgressTrait}

pub record Client (E : Type 0) : Type 0 where
  pub egress_by_id : List (EgressId × E)
  pub byte_counter : ℕ

-- What `stop` leaves: its result, the client, and each egress with what its own `stop` returned (an
-- error of it is only logged).
pub record Stopped (E : Type 0) : Type 0 where
  pub result : Result (Unit {0})
  pub client : Client E
  pub egresses : List (Result (Unit {0}) × E)

module _ {E : Type 0} where
  -- The client's counter has no parent.
  unfoldable pub new : Counters → Client E × Counters
  new counters =
      let (byte_counter, counters') = ByteCounter.new none counters in
      (record { egress_by_id = []; byte_counter = byte_counter }, counters')

  unfoldable pub assign_egress : ⦃t : EgressTrait E⦄ → E → Client E → Result (Unit {0}) × Client E
  assign_egress ⦃t⦄ egress c = elim (lookup (t.id egress) c.egress_by_id) [
    | some _ ↦ (err (egress_id_already_assigned (t.id egress)), c)
    | none ↦ (ok tt, record c { egress_by_id = insert (t.id egress) egress c.egress_by_id })
  ]

  -- `joined` is what joining the task of each egress returns.
  unfoldable pub stop : ⦃t : EgressTrait E⦄ → (EgressId → Result (Unit {0})) → Client E → Stopped E
  stop ⦃t⦄ joined c = record {
    result = ok tt;
    client = record c { egress_by_id = [] };
    egresses = map (λ entry. t.stop (joined entry.0) entry.1) c.egress_by_id;
  }

module _ {E : Type 0} ⦃t : EgressTrait E⦄ where
  -- An egress whose id is free is found under it afterwards, and every other id finds what it did; one whose id
  -- is taken is refused, and the registry stays.
  pub lookup-assign_egress :
      (e : E) (c : Client E)
      → ((lookup (t.id e) c.egress_by_id ≡ none)
          × ((assign_egress e c).0 ≡ ok tt)
          × ((k : EgressId)
              → lookup k (assign_egress e c).1.egress_by_id
                ≡ (if bytes_beq (t.id e).value k.value then some e else lookup k c.egress_by_id)))
        ⊎ ((f : E) × (lookup (t.id e) c.egress_by_id ≡ some f)
            × (assign_egress e c ≡ (err (egress_id_already_assigned (t.id e)), c)))
  unfolding assign_egress
  lookup-assign_egress e c = elim (Option-cases (lookup (t.id e) c.egress_by_id)) [
    | inl h ↦ inl (
      h,
      rw (h, assign_egress),
      λ k. rw (h, assign_egress) (lookup-insert (t.id e) k e c.egress_by_id),
    )
    | inr (f, h) ↦ inr (f, h, rw (h, assign_egress))
  ]

  -- Stopping a client succeeds whatever its egresses return, stops each of them with the result of joining its own
  -- task, and forgets them all, so that afterwards any egress is assigned again.
  pub stop-assign_egress :
      (joined : EgressId → Result (Unit {0})) (c : Client E) (e : E)
      → let stopped = stop joined c in
        (stopped.result ≡ ok tt)
        × (stopped.egresses ≡ map (λ entry. t.stop (joined entry.0) entry.1) c.egress_by_id)
        × ((assign_egress e stopped.client).0 ≡ ok tt)
        × (lookup (t.id e) (assign_egress e stopped.client).1.egress_by_id ≡ some e)
  unfolding assign_egress stop lookup insert
  stop-assign_egress joined c e =
      (refl, refl, refl, ground (arith, (egress_id_eq.beq_iff (t.id e) (t.id e))))
