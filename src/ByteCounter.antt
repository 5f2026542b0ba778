-- ===== src/ByteCounter.antt =====
-- siffleux/src/common/byte_counter.rs. Counters are shared and point to their parents, so they lie
-- in a list, and a counter is its place there. The two numbers are `AtomicUsize` of 64 bits, whose
-- `fetch_add` wraps; additions commute, so one after the other stands for any interleaving.
pub mod Chain
pub mod Written
pub mod History
pub mod Totals
use siffleux.Prelude.{
  ℕ, zero, suc, ◌+◌, ◌%◌, ◌^◌, Option, none, some, List, [], ◌∷◌, ◌++◌, length, get_elem?, set,
}

pub record Counter : Type 0 where
  pub parent : Option ℕ
  pub bytes_write : ℕ
  pub bytes_read : ℕ

abbrev pub Counters : Type 0
Counters = List Counter

-- The new counter's place, and the counters with it.
unfoldable pub new : Option ℕ → Counters → ℕ × Counters
new parent counters = (
  length counters,
  counters ++ (record { parent = parent; bytes_write = 0; bytes_read = 0 } ∷ []),
)

unfoldable pub bytes_read : ℕ → Counters → Option ℕ
bytes_read i counters = elim (get_elem? counters i) [ none ↦ none | some c ↦ some c.bytes_read ]

unfoldable pub bytes_write : ℕ → Counters → Option ℕ
bytes_write i counters = elim (get_elem? counters i) [ none ↦ none | some c ↦ some c.bytes_write ]

unfoldable pub fetch_add_read : ℕ → ℕ → Counters → Counters
fetch_add_read i bytes counters = elim (get_elem? counters i) [
  | none ↦ counters
  | some c ↦ set counters i (record c { bytes_read = (c.bytes_read + bytes) % 2 ^ 64 })
]

unfoldable pub fetch_add_write : ℕ → ℕ → Counters → Counters
fetch_add_write i bytes counters = elim (get_elem? counters i) [
  | none ↦ counters
  | some c ↦ set counters i (record c { bytes_write = (c.bytes_write + bytes) % 2 ^ 64 })
]

unfoldable pub parent_of : ℕ → Counters → Option ℕ
parent_of i counters = elim (get_elem? counters i) [ none ↦ none | some c ↦ c.parent ]

-- The parent first, then the counter itself. The fuel bounds the length of the chain of parents.
unfoldable pub add_bytes_read : ℕ → ℕ → ℕ → Counters → Counters
add_bytes_read zero i bytes counters = counters
add_bytes_read (suc fuel) i bytes counters = fetch_add_read i bytes (elim (parent_of i counters) [
  | none ↦ counters
  | some p ↦ add_bytes_read fuel p bytes counters
])

unfoldable pub add_bytes_write : ℕ → ℕ → ℕ → Counters → Counters
add_bytes_write zero i bytes counters = counters
add_bytes_write (suc fuel) i bytes counters = fetch_add_write i bytes (elim (parent_of i counters) [
  | none ↦ counters
  | some p ↦ add_bytes_write fuel p bytes counters
])
