-- ===== src/Ingress/Pool/Bag.antt =====
-- The abstract view of an ingress's tunnels: a bag of tunnel ids, which forgets their order and places.
use mathlib.Core.Quot
use mathlib.Core.Quot.{Quot, Quot-set}
use native.Mathlib.Nat.{ℕ_set}
use siffleux.Prelude.{
  ℕ, ◌+◌, ◌-◌, ◌≡◌, List, [], ◌∷◌, arith, bytes_beq, bytes_beq_iff, if◌then◌else◌,
}
use siffleux.Frames.{Uuid}

abbrev pub same : Uuid → Uuid → ℕ
same x u = if bytes_beq x u then 1 else 0

unfoldable pub count_id : Uuid → List Uuid → ℕ
count_id u [] = 0
count_id u (x ∷ xs) = same x u + count_id u xs

-- Two lists hold the same ids, as often.
abbrev pub SameIds : List Uuid → List Uuid → Type 0
SameIds xs ys = (u : Uuid) → count_id u xs ≡ count_id u ys

abbrev pub Bag : Type 0
Bag = Quot SameIds

abbrev pub occurrences : Uuid → Bag → ℕ
occurrences u = Quot.lift ℕ_set (count_id u) (λ xs ys h. h u)

pub SameIds-cons : (x : Uuid) (xs ys : List Uuid) → SameIds xs ys → SameIds (x ∷ xs) (x ∷ ys)
unfolding count_id
SameIds-cons x xs ys h u = omega (arith, h u)

-- One more of an id.
abbrev pub insert_id : Uuid → Bag → Bag
insert_id x =
    Quot.lift Quot-set (λ xs. Quot.mk (x ∷ xs)) (λ xs ys h. Quot.sound (SameIds-cons x xs ys h))

unfoldable pub remove_first : Uuid → List Uuid → List Uuid
remove_first k [] = []
remove_first k (x ∷ xs) = let rest = remove_first k xs in if bytes_beq x k then xs else x ∷ rest

pub count-remove_first :
    (k u : Uuid) (xs : List Uuid) → count_id u (remove_first k xs) ≡ count_id u xs - same k u
unfolding count_id remove_first
count-remove_first k u [] = ground arith
count-remove_first k u (x ∷ xs) =
    ground
      (arith, count-remove_first k u xs, bytes_beq_iff x k, bytes_beq_iff x u, bytes_beq_iff k u)

pub SameIds-remove_first :
    (k : Uuid) (xs ys : List Uuid) → SameIds xs ys → SameIds (remove_first k xs) (remove_first k ys)
SameIds-remove_first k xs ys h u =
    omega (arith, h u, count-remove_first k u xs, count-remove_first k u ys)

-- One less of an id, if there is one.
abbrev pub remove_id : Uuid → Bag → Bag
remove_id k =
    Quot.lift Quot-set (λ xs. Quot.mk (remove_first k xs))
      (λ xs ys h. Quot.sound (SameIds-remove_first k xs ys h))
