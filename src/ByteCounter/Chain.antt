-- ===== src/ByteCounter/Chain.antt =====
-- Bytes are counted by a counter and by all its ancestors, once each, and by no other.
use siffleux.Prelude.{
  ◌⊎◌, ◌++◌, ap, sym, ◌∙◌, Bool-cases, ==_iff, ap, ◌≤◌, ◌∙◌, true, ℕ, zero, suc, ◌+◌, ◌%◌, ◌^◌, ◌<◌,
  ◌≡◌, refl, Bool, false, ◌||◌, ◌==◌, Option, none, some, [], ◌∷◌, get_elem?, set, arith,
  if◌then◌else◌, Option-cases, inl, inr,
}
use siffleux.ByteCounter.{
  length, new, add_bytes_read, Counter, Counters, bytes_read, fetch_add_read, parent_of,
}

-- A counter's parent is made before it, as `new` does.
pub record IsWellFormed (cs : Counters) : Type 0 where
  pub before : (i p : ℕ) → parent_of i cs ≡ some p → p < i

-- Whether `j` is `i` or an ancestor of it.
unfoldable pub on_chain : ℕ → ℕ → ℕ → Counters → Bool
on_chain zero j i cs = false
on_chain (suc fuel) j i cs =
    j == i || (elim (parent_of i cs) [ none ↦ false | some p ↦ on_chain fuel j p cs ])

pub get_elem?-set :
    (cs : Counters) (i j : ℕ) (c d : Counter)
    → get_elem? cs i ≡ some c
    → get_elem? (set cs i d) j ≡ (if j == i then some d else get_elem? cs j)
get_elem?-set [] i j c d h = cc
get_elem?-set (x ∷ cs) zero zero c d h = refl
get_elem?-set (x ∷ cs) zero (suc j) c d h = ground arith
get_elem?-set (x ∷ cs) (suc i) zero c d h = ground arith
get_elem?-set (x ∷ cs) (suc i) (suc j) c d h = ground (arith, get_elem?-set cs i j c d h)

-- What a counter's reading becomes.
abbrev pub bump : Bool → ℕ → Option ℕ → Option ℕ
bump b n none = none
bump b n (some r) = some (if b then (r + n) % 2 ^ 64 else r)

pub read-fetch_add :
    (i j n : ℕ) (cs : Counters)
    → bytes_read j (fetch_add_read i n cs) ≡ bump (j == i) n (bytes_read j cs)
unfolding bytes_read fetch_add_read
read-fetch_add i j n cs = elim (Option-cases (get_elem? cs i)) [
  | inl e ↦ ground arith
  | inr (c, e) ↦
      ground
        (arith, get_elem?-set cs i j c (record c { bytes_read = (c.bytes_read + n) % 2 ^ 64 }) e)
]

pub parent-fetch_add :
    (i j n : ℕ) (cs : Counters) → parent_of j (fetch_add_read i n cs) ≡ parent_of j cs
unfolding parent_of fetch_add_read
parent-fetch_add i j n cs = elim (Option-cases (get_elem? cs i)) [
  | inl e ↦ ground arith
  | inr (c, e) ↦
      ground
        (arith, get_elem?-set cs i j c (record c { bytes_read = (c.bytes_read + n) % 2 ^ 64 }) e)
]

on_chain-le : (fuel j i : ℕ) (cs : Counters) → IsWellFormed cs → on_chain fuel j i cs ≡ true → j ≤ i
unfolding on_chain
on_chain-le zero j i cs w h = cc
on_chain-le (suc fuel) j i cs w h = elim (Option-cases (parent_of i cs)) [
  | inl e ↦ ground arith
  | inr (p, e) ↦ ground (arith, on_chain-le fuel j p cs w, w.before i p e)
]

pub bump-bump :
    (a b : Bool) (n : ℕ) (o : Option ℕ)
    → (a ≡ true → b ≡ false)
    → bump a n (bump b n o) ≡ bump (a || b) n o
bump-bump true true n o h = cc (h refl)
bump-bump true false n none h = refl
bump-bump true false n (some r) h = refl
bump-bump false b n none h = refl
bump-bump false b n (some r) h = refl

pub bump-false : (n : ℕ) (o : Option ℕ) → bump false n o ≡ o
bump-false n none = refl
bump-false n (some r) = refl

pub or-false : (b : Bool) → (b || false) ≡ b
or-false true = refl
or-false false = refl

pub chain_apart :
    (fuel j p i : ℕ) (cs : Counters)
    → IsWellFormed cs
    → p < i
    → (j == i) ≡ true
    → on_chain fuel j p cs ≡ false
chain_apart fuel j p i cs w h e = elim (Bool-cases (on_chain fuel j p cs)) [
  | inl c ↦ absurd (omega (arith, on_chain-le fuel j p cs w c, (==_iff j i).0 e))
  | inr c ↦ c
]

pub read-add_bytes_read :
    (fuel i j n : ℕ) (cs : Counters)
    → IsWellFormed cs
    → bytes_read j (add_bytes_read fuel i n cs) ≡ bump (on_chain fuel j i cs) n (bytes_read j cs)
unfolding add_bytes_read on_chain
read-add_bytes_read zero i j n cs w = sym (bump-false n (bytes_read j cs))
read-add_bytes_read (suc fuel) i j n cs w = elim (Option-cases (parent_of i cs)) [
  | inl e ↦
      rw e
        (read-fetch_add i j n cs ∙ sym (ap (λ b. bump b n (bytes_read j cs)) (or-false (j == i))))
  | inr (p, e) ↦ rw e (
      read-fetch_add i j n (add_bytes_read fuel p n cs)
      ∙ ap (bump (j == i) n) (read-add_bytes_read fuel p j n cs w)
      ∙ bump-bump (j == i) (on_chain fuel j p cs) n (bytes_read j cs)
          (chain_apart fuel j p i cs w (w.before i p e)))
]

-- `j` is `i` or one of its ancestors.
pub data OnChain (cs : Counters) (j : ℕ) : ℕ → Type 0 where
  here : OnChain cs j j
  up : {i p : ℕ} → parent_of i cs ≡ some p → OnChain cs j p → OnChain cs j i

pub on_chain_complete :
    (fuel j i : ℕ) (cs : Counters)
    → IsWellFormed cs
    → i < fuel
    → OnChain cs j i
    → on_chain fuel j i cs ≡ true
unfolding on_chain
on_chain_complete zero j i cs w h c = absurd (omega arith)
on_chain_complete (suc fuel) j i cs w h here = ground arith
on_chain_complete (suc fuel) j i cs w h (up {p = p} e c) =
    rw e (ground (arith, on_chain_complete fuel j p cs w (omega (arith, w.before i p e)) c))

pub on_chain_sound : (fuel j i : ℕ) (cs : Counters) → on_chain fuel j i cs ≡ true → OnChain cs j i
unfolding on_chain
on_chain_sound zero j i cs h = cc
on_chain_sound (suc fuel) j i cs h = elim (Bool-cases (j == i)) [
  | inl same ↦ rw ((==_iff j i).0 same) here
  | inr apart ↦ elim (Option-cases (parent_of i cs)) [
    | inl e ↦ cc (or-false (j == i), rw e at h, apart)
    | inr (p, e) ↦ up e (on_chain_sound fuel j p cs (rw (e, apart) at h))
  ]
]

-- Among counters whose parents were made before them, and whatever fuel above `i` is given: when
-- `n` bytes are read at a counter `i`, each counter that is `i` or an ancestor of `i` reads `n`
-- more, modulo 2 ^ 64, and every other counter reads what it did.
pub add_bytes_read-OnChain :
    (fuel i j n : ℕ) (cs : Counters)
    → IsWellFormed cs
    → i < fuel
    → (OnChain cs j i × (bytes_read j (add_bytes_read fuel i n cs) ≡ bump true n (bytes_read j cs)))
      ⊎ ((¬ OnChain cs j i) × (bytes_read j (add_bytes_read fuel i n cs) ≡ bytes_read j cs))
add_bytes_read-OnChain fuel i j n cs w h = elim (Bool-cases (on_chain fuel j i cs)) [
  | inl e ↦ inl (
    on_chain_sound fuel j i cs e,
    read-add_bytes_read fuel i j n cs w ∙ ap (λ b. bump b n (bytes_read j cs)) e,
  )
  | inr e ↦ inr (
    λ c. cc (e, on_chain_complete fuel j i cs w h c),
    read-add_bytes_read fuel i j n cs w
        ∙ ap (λ b. bump b n (bytes_read j cs)) e
        ∙ bump-false n (bytes_read j cs),
  )
]

pub get_elem?-append_one :
    (cs : Counters) (i : ℕ) (c : Counter)
    → get_elem? (cs ++ (c ∷ [])) i ≡ (if i == length cs then some c else get_elem? cs i)
get_elem?-append_one [] zero c = ground arith
get_elem?-append_one [] (suc i) c = ground arith
get_elem?-append_one (x ∷ cs) zero c = ground arith
get_elem?-append_one (x ∷ cs) (suc i) c = ground (arith, get_elem?-append_one cs i c)

new-before :
    (parent : Option ℕ) (cs : Counters)
    → IsWellFormed cs
    → ((p : ℕ) → parent ≡ some p → p < length cs)
    → (i p : ℕ) → parent_of i (new parent cs).1 ≡ some p
    → p < i
unfolding new parent_of
new-before parent cs w h i p e = ground (
  arith,
  get_elem?-append_one cs i (record { parent = parent; bytes_write = 0; bytes_read = 0 }),
  h p,
  w.before i p,
)

-- A counter below an existing one, or below none, keeps the counters well-formed; its place is the
-- next free one, and it starts at 0.
pub new-IsWellFormed :
    (parent : Option ℕ) (cs : Counters)
    → IsWellFormed cs
    → ((p : ℕ) → parent ≡ some p → p < length cs)
    → IsWellFormed (new parent cs).1 × (bytes_read (new parent cs).0 (new parent cs).1 ≡ some 0)
unfolding new parent_of bytes_read
new-IsWellFormed parent cs w h = (
  record { before = λ i p e. new-before parent cs w h i p e },
  ground (
    arith,
    get_elem?-append_one cs (length cs)
        (record { parent = parent; bytes_write = 0; bytes_read = 0 }),
  ),
)
