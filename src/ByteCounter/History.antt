-- ===== src/ByteCounter/History.antt =====
-- siffleux/src/common/byte_counter.rs: what a counter shows after any history of reading and writing.
use siffleux.Prelude.{ℕ, ◌+◌, ◌%◌, ◌^◌, ◌≡◌, sym, ◌∙◌, some, List, [], ◌∷◌}
use siffleux.ByteCounter.{
  Counters, bytes_read, bytes_write, parent_of, add_bytes_read, add_bytes_write,
}
use siffleux.ByteCounter.Chain.{IsWellFormed, OnChain}
use siffleux.ByteCounter.Written.{parent-add_bytes_read, parent-add_bytes_write}

-- So many bytes are read or written at a counter.
pub data Count : Type 0 where
  read : ℕ → ℕ → Count
  write : ℕ → ℕ → Count

abbrev pub place : Count → ℕ
place (read i n) = i
place (write i n) = i

unfoldable pub add : ℕ → Count → Counters → Counters
add fuel (read i n) cs = add_bytes_read fuel i n cs
add fuel (write i n) cs = add_bytes_write fuel i n cs

-- One after the other, from the front of the list.
unfoldable pub add_all : ℕ → List Count → Counters → Counters
unfolding add
add_all fuel [] cs = cs
add_all fuel (e ∷ history) cs = add_all fuel history (add fuel e cs)

-- The bytes of a history that concern a counter: those read, and those written, at it or below it.
pub data Total (cs : Counters) (j : ℕ) : List Count → ℕ → ℕ → Type 0 where
  nothing : Total cs j [] 0 0
  read_below :
      {i n r w : ℕ} {history : List Count}
      → OnChain cs j i
      → Total cs j history r w
      → Total cs j (read i n ∷ history) (n + r) w
  write_below :
      {i n r w : ℕ} {history : List Count}
      → OnChain cs j i
      → Total cs j history r w
      → Total cs j (write i n ∷ history) r (n + w)
  elsewhere :
      {e : Count} {r w : ℕ} {history : List Count}
      → ¬ OnChain cs j (place e)
      → Total cs j history r w
      → Total cs j (e ∷ history) r w

-- The counters keep their parents.
pub parent-add :
    (fuel j : ℕ) (e : Count) (cs : Counters) → parent_of j (add fuel e cs) ≡ parent_of j cs
unfolding add
parent-add fuel j (read i n) cs = parent-add_bytes_read fuel i j n cs
parent-add fuel j (write i n) cs = parent-add_bytes_write fuel i j n cs

pub add-IsWellFormed :
    (fuel : ℕ) (e : Count) (cs : Counters) → IsWellFormed cs → IsWellFormed (add fuel e cs)
add-IsWellFormed fuel e cs w = record {
  before = λ i p h. w.before i p (sym (parent-add fuel i e cs) ∙ h);
}

OnChain-add :
    (fuel : ℕ) (e : Count) (cs : Counters) {j i : ℕ} → OnChain (add fuel e cs) j i → OnChain cs j i
OnChain-add fuel e cs OnChain.here = OnChain.here
OnChain-add fuel e cs (OnChain.up {i = i} h c) =
    OnChain.up (sym (parent-add fuel i e cs) ∙ h) (OnChain-add fuel e cs c)

add-OnChain :
    (fuel : ℕ) (e : Count) (cs : Counters) {j i : ℕ} → OnChain cs j i → OnChain (add fuel e cs) j i
add-OnChain fuel e cs OnChain.here = OnChain.here
add-OnChain fuel e cs (OnChain.up {i = i} h c) =
    OnChain.up (parent-add fuel i e cs ∙ h) (add-OnChain fuel e cs c)

-- So the totals are those of the counters before.
pub Total-add :
    (fuel : ℕ) (e : Count) (cs : Counters) {j r w : ℕ} {history : List Count}
    → Total (add fuel e cs) j history r w
    → Total cs j history r w
Total-add fuel e cs nothing = nothing
Total-add fuel e cs (read_below c t) = read_below (OnChain-add fuel e cs c) (Total-add fuel e cs t)
Total-add fuel e cs (write_below c t) =
    write_below (OnChain-add fuel e cs c) (Total-add fuel e cs t)
Total-add fuel e cs (elsewhere c t) =
    elsewhere (λ h. c (add-OnChain fuel e cs h)) (Total-add fuel e cs t)

-- What a counter shows in the end.
pub record Shown (fuel j a b : ℕ) (history : List Count) (cs : Counters) : Type 0 where
  pub read_total : ℕ
  pub write_total : ℕ
  pub total : Total cs j history read_total write_total
  pub shows_read : bytes_read j (add_all fuel history cs) ≡ some ((a + read_total) % 2 ^ 64)
  pub shows_write : bytes_write j (add_all fuel history cs) ≡ some ((b + write_total) % 2 ^ 64)
