-- ===== src/ByteCounter/Written.antt =====
-- siffleux/src/common/byte_counter.rs: the bytes that are written, counted as those that are read; and
-- what the one leaves of the other.
use siffleux.Prelude.{
  ℕ, zero, suc, ◌+◌, ◌%◌, ◌^◌, ◌≡◌, refl, sym, ap, ◌∙◌, ◌==◌, get_elem?, arith, Option-cases, inl,
  inr,
}
use siffleux.ByteCounter.{
  Counter, Counters, bytes_read, bytes_write, fetch_add_read, fetch_add_write, parent_of,
  add_bytes_read, add_bytes_write,
}
use siffleux.ByteCounter.Chain.{
  IsWellFormed, on_chain, bump, get_elem?-set, bump-bump, bump-false, or-false, chain_apart,
  parent-fetch_add,
}

-- The counter after `n` more bytes.
abbrev more_written : ℕ → Counter → Counter
more_written n c = record c { bytes_write = (c.bytes_write + n) % 2 ^ 64 }

abbrev more_read : ℕ → Counter → Counter
more_read n c = record c { bytes_read = (c.bytes_read + n) % 2 ^ 64 }

written-fetch_add :
    (i j n : ℕ) (cs : Counters)
    → bytes_write j (fetch_add_write i n cs) ≡ bump (j == i) n (bytes_write j cs)
unfolding bytes_write fetch_add_write
written-fetch_add i j n cs = elim (Option-cases (get_elem? cs i)) [
  | inl e ↦ ground arith
  | inr (c, e) ↦ ground (arith, get_elem?-set cs i j c (more_written n c) e)
]

read-fetch_add_write :
    (i j n : ℕ) (cs : Counters) → bytes_read j (fetch_add_write i n cs) ≡ bytes_read j cs
unfolding bytes_read fetch_add_write
read-fetch_add_write i j n cs = elim (Option-cases (get_elem? cs i)) [
  | inl e ↦ ground arith
  | inr (c, e) ↦ ground (arith, get_elem?-set cs i j c (more_written n c) e)
]

written-fetch_add_read :
    (i j n : ℕ) (cs : Counters) → bytes_write j (fetch_add_read i n cs) ≡ bytes_write j cs
unfolding bytes_write fetch_add_read
written-fetch_add_read i j n cs = elim (Option-cases (get_elem? cs i)) [
  | inl e ↦ ground arith
  | inr (c, e) ↦ ground (arith, get_elem?-set cs i j c (more_read n c) e)
]

parent-fetch_add_write :
    (i j n : ℕ) (cs : Counters) → parent_of j (fetch_add_write i n cs) ≡ parent_of j cs
unfolding parent_of fetch_add_write
parent-fetch_add_write i j n cs = elim (Option-cases (get_elem? cs i)) [
  | inl e ↦ ground arith
  | inr (c, e) ↦ ground (arith, get_elem?-set cs i j c (more_written n c) e)
]

pub written-add_bytes_write :
    (fuel i j n : ℕ) (cs : Counters)
    → IsWellFormed cs
    → bytes_write j (add_bytes_write fuel i n cs) ≡ bump (on_chain fuel j i cs) n (bytes_write j cs)
unfolding add_bytes_write on_chain
written-add_bytes_write zero i j n cs w = sym (bump-false n (bytes_write j cs))
written-add_bytes_write (suc fuel) i j n cs w = elim (Option-cases (parent_of i cs)) [
  | inl e ↦
      rw e (
        written-fetch_add i j n cs
        ∙ sym (ap (λ b. bump b n (bytes_write j cs)) (or-false (j == i))))
  | inr (p, e) ↦ rw e (
      written-fetch_add i j n (add_bytes_write fuel p n cs)
      ∙ ap (bump (j == i) n) (written-add_bytes_write fuel p j n cs w)
      ∙ bump-bump (j == i) (on_chain fuel j p cs) n (bytes_write j cs)
          (chain_apart fuel j p i cs w (w.before i p e)))
]

pub read-add_bytes_write :
    (fuel i j n : ℕ) (cs : Counters) → bytes_read j (add_bytes_write fuel i n cs) ≡ bytes_read j cs
unfolding add_bytes_write
read-add_bytes_write zero i j n cs = refl
read-add_bytes_write (suc fuel) i j n cs = elim (Option-cases (parent_of i cs)) [
  | inl e ↦ rw e (read-fetch_add_write i j n cs)
  | inr (p, e) ↦ rw e (
      read-fetch_add_write i j n (add_bytes_write fuel p n cs) ∙ read-add_bytes_write fuel p j n cs)
]

pub written-add_bytes_read :
    (fuel i j n : ℕ) (cs : Counters) → bytes_write j (add_bytes_read fuel i n cs) ≡ bytes_write j cs
unfolding add_bytes_read
written-add_bytes_read zero i j n cs = refl
written-add_bytes_read (suc fuel) i j n cs = elim (Option-cases (parent_of i cs)) [
  | inl e ↦ rw e (written-fetch_add_read i j n cs)
  | inr (p, e) ↦ rw e (
      written-fetch_add_read i j n (add_bytes_read fuel p n cs)
      ∙ written-add_bytes_read fuel p j n cs)
]

pub parent-add_bytes_read :
    (fuel i j n : ℕ) (cs : Counters) → parent_of j (add_bytes_read fuel i n cs) ≡ parent_of j cs
unfolding add_bytes_read
parent-add_bytes_read zero i j n cs = refl
parent-add_bytes_read (suc fuel) i j n cs = elim (Option-cases (parent_of i cs)) [
  | inl e ↦ rw e (parent-fetch_add i j n cs)
  | inr (p, e) ↦
      rw e
        (parent-fetch_add i j n (add_bytes_read fuel p n cs) ∙ parent-add_bytes_read fuel p j n cs)
]

pub parent-add_bytes_write :
    (fuel i j n : ℕ) (cs : Counters) → parent_of j (add_bytes_write fuel i n cs) ≡ parent_of j cs
unfolding add_bytes_write
parent-add_bytes_write zero i j n cs = refl
parent-add_bytes_write (suc fuel) i j n cs = elim (Option-cases (parent_of i cs)) [
  | inl e ↦ rw e (parent-fetch_add_write i j n cs)
  | inr (p, e) ↦ rw e (
      parent-fetch_add_write i j n (add_bytes_write fuel p n cs)
      ∙ parent-add_bytes_write fuel p j n cs)
]
