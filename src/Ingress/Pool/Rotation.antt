-- ===== src/Ingress/Pool/Rotation.antt =====
-- Load balancing: which tunnel `get_tunnel_to_connect` picks.
use native.Mathlib.Nat.{mod-add-mod, add-mod_right, mod-eq_of_lt}
use mathlib.Core.Path.{subst}
use siffleux.Prelude.{
  sym, ap, ◌∙◌, ℕ, zero, suc, ◌+◌, ◌-◌, ◌%◌, ◌^◌, ◌≡◌, ◌≤◌, ◌<◌, none, some, List, arith, length,
  get_elem?, get_elem?-lt, ◌==◌, Bool-cases, inl, inr, if◌then◌else◌, ◌⊎◌, ltb,
}
use siffleux.Error.{ok}
use siffleux.Tunnel.{Tunnel}
use siffleux.Ingress.Pool.{Pool, tunnel_at, get_tunnel_to_connect}

tunnel_at-lt :
    (ts : List Tunnel) (i : ℕ)
    → i < length ts
    → (t : Tunnel) × (get_elem? ts i ≡ some t) × (tunnel_at ts i ≡ ok (some t))
unfolding tunnel_at
tunnel_at-lt ts i h = let (t, e) = get_elem?-lt ts i h in (t, e, rw (e, tunnel_at))

-- The index of the tunnel that is picked.
abbrev pub slot : ℕ → ℕ → ℕ
slot rotation n = if n == 1 then 0 else rotation % n

-- The pick never panics. Without tunnels there is none and nothing changes; with tunnels it is the
-- one that the rotation points at (the only one, where there is one), and the tunnels stay.
pub get_tunnel_total :
    (pool : Pool)
    → ((length pool.tunnels ≡ 0) × (get_tunnel_to_connect pool ≡ (ok none, pool)))
      ⊎ ((t : Tunnel) × (get_elem? pool.tunnels (slot pool.tunnel_rotation (length pool.tunnels))
            ≡ some t)
          × ((get_tunnel_to_connect pool).0 ≡ ok (some t))
          × ((get_tunnel_to_connect pool).1.tunnels ≡ pool.tunnels))
unfolding get_tunnel_to_connect
get_tunnel_total pool = elim (Bool-cases (length pool.tunnels == 0)) [
  | inl e ↦ inl (ground arith, rw e)
  | inr e ↦ elim (Bool-cases (length pool.tunnels == 1)) [
    | inl f ↦
        let (t, at, got) = tunnel_at-lt pool.tunnels 0 (ground arith) in
        inr (t, rw f at, rw (e, f) got, rw (e, f))
    | inr f ↦
        let (t, at, got) =
          tunnel_at-lt pool.tunnels (pool.tunnel_rotation % length pool.tunnels) (ground arith) in
        inr (t, rw f at, rw (e, f) got, rw (e, f))
  ]
]

-- The ingress after `k` connections, with nothing else happening.
pub after : ℕ → Pool → Pool
after zero pool = pool
after (suc k) pool = (get_tunnel_to_connect (after k pool)).1

after-rotation :
    (k : ℕ) (pool : Pool)
    → 2 ≤ length pool.tunnels
    → pool.tunnel_rotation + k < 2 ^ 64
    → (after k pool ≡ record pool { tunnel_rotation = pool.tunnel_rotation + k })
unfolding after get_tunnel_to_connect
after-rotation zero pool h b = ground arith
after-rotation (suc k) pool h b = rw (after-rotation k pool h (omega arith), after) (ground arith)

-- The picks go round: with two or more tunnels, the connection after `k` others gets the tunnel `k` places
-- on from the first, as long as the counter does not wrap.
pub round_robin :
    (k : ℕ) (pool : Pool)
    → 2 ≤ length pool.tunnels
    → pool.tunnel_rotation + k < 2 ^ 64
    → (t : Tunnel) × (get_elem? pool.tunnels ((pool.tunnel_rotation + k) % length pool.tunnels)
        ≡ some t)
      × ((get_tunnel_to_connect (after k pool)).0 ≡ ok (some t))
unfolding get_tunnel_to_connect
round_robin k pool h b =
    let (t, at, got) =
      tunnel_at-lt pool.tunnels ((pool.tunnel_rotation + k) % length pool.tunnels) (ground arith) in
    (t, at, rw (after-rotation k pool h b) (ground (arith, got)))

-- Every slot is hit in `n` picks, and by only one of them.
turn : ℕ → ℕ → ℕ → ℕ
turn r n i = if ltb i (r % n) then i + n - r % n else i - r % n

mod-reaches : (r n k i : ℕ) → i < n → (r % n + k ≡ i) ⊎ (r % n + k ≡ i + n) → (r + k) % n ≡ i
mod-reaches r n k i h (inl e) = sym (mod-add-mod r n k) ∙ ap (λ t. t % n) e ∙ mod-eq_of_lt h
mod-reaches r n k i h (inr e) =
    sym (mod-add-mod r n k) ∙ ap (λ t. t % n) e ∙ add-mod_right i n ∙ mod-eq_of_lt h

turn-lt : (r n i : ℕ) → i < n → turn r n i < n
unfolding turn
turn-lt r n i h = ground arith

turn-slot : (r n i : ℕ) → i < n → (r + turn r n i) % n ≡ i
unfolding turn
turn-slot r n i h = elim (Bool-cases (ltb i (r % n))) [
  | inl e ↦ rw e (mod-reaches r n _ i h (inr (ground arith)))
  | inr e ↦ rw e (mod-reaches r n _ i h (inl (ground arith)))
]

slot-injective : (r n j k : ℕ) → j < n → k < n → (r + j) % n ≡ (r + k) % n → j ≡ k
slot-injective r n j k hj hk e = grind arith

round_robin-at :
    (k i : ℕ) (pool : Pool)
    → 2 ≤ length pool.tunnels
    → pool.tunnel_rotation + k < 2 ^ 64
    → (pool.tunnel_rotation + k) % length pool.tunnels ≡ i
    → (t : Tunnel) × (get_elem? pool.tunnels i ≡ some t)
      × ((get_tunnel_to_connect (after k pool)).0 ≡ ok (some t))
round_robin-at k i pool h b e =
    let (t, at, got) = round_robin k pool h b in
    (t, subst (λ j. get_elem? pool.tunnels j ≡ some t) e at, got)

-- The load is spread evenly: of any `n` connections in a row to an ingress with `n ≥ 2` tunnels, exactly one
-- goes to the tunnel at each place `i`, as long as the counter does not wrap.
pub balanced :
    (pool : Pool) (i : ℕ)
    → 2 ≤ length pool.tunnels
    → pool.tunnel_rotation + length pool.tunnels < 2 ^ 64
    → i < length pool.tunnels
    → (k : ℕ) × (k < length pool.tunnels)
      × ((t : Tunnel) × (get_elem? pool.tunnels i ≡ some t)
          × ((get_tunnel_to_connect (after k pool)).0 ≡ ok (some t)))
      × ((j : ℕ)
          → j < length pool.tunnels
          → (pool.tunnel_rotation + j) % length pool.tunnels ≡ i
          → j ≡ k)
balanced pool i h b hi =
    let n = length pool.tunnels in
    let r = pool.tunnel_rotation in
    let k = turn r n i in
    let hk : k < n = turn-lt r n i hi in
    let here : (r + k) % n ≡ i = turn-slot r n i hi in
    (
      k,
      hk,
      round_robin-at k i pool h (omega (arith, hk)) here,
      λ j hj e. slot-injective r n j k hj hk (e ∙ sym here),
    )
