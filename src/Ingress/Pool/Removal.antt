-- ===== src/Ingress/Pool/Removal.antt =====
-- What `on_closed` leaves of an ingress's tunnels, as a multiset of tunnel ids.
use siffleux.Prelude.{
  Option-cases, inl, inr, ℕ, zero, suc, ◌+◌, ◌-◌, ◌≡◌, true, none, some, List, [], ◌∷◌, arith, refl,
  get_elem?, set, bytes_beq, bytes_beq_iff, if◌then◌else◌,
}
use siffleux.Tunnel.{Tunnel, same_id}
use siffleux.Frames.{Uuid}
use siffleux.Ingress.Pool.{Pool, position, last?, init, swap_remove, remove_tunnel, on_closed}

-- 1 for the tunnels of an id.
abbrev pub one : Uuid → Tunnel → ℕ
one u t = if bytes_beq t.id u then 1 else 0

-- How often an id is among the tunnels.
unfoldable pub count : Uuid → List Tunnel → ℕ
count u [] = 0
count u (t ∷ ts) = one u t + count u ts

count-init :
    (u : Uuid) (ts : List Tunnel) (l : Tunnel)
    → last? ts ≡ some l
    → count u ts ≡ count u (init ts) + one u l
unfolding count last? init
count-init u [] l h = cc
count-init u (x ∷ []) l h = ground arith
count-init u (x ∷ y ∷ ts) l h = ground (arith, count-init u (y ∷ ts) l h)

count-set :
    (u : Uuid) (ts : List Tunnel) (i : ℕ) (a v : Tunnel)
    → get_elem? ts i ≡ some a
    → count u (set ts i v) + one u a ≡ count u ts + one u v
unfolding count
count-set u [] i a v h = cc
count-set u (x ∷ ts) zero a v h = ground arith
count-set u (x ∷ ts) (suc i) a v h = omega (arith, count-set u ts i a v h)

last-set : (ts : List Tunnel) (i : ℕ) (l : Tunnel) → last? ts ≡ some l → last? (set ts i l) ≡ some l
unfolding last?
last-set [] i l h = cc
last-set (x ∷ []) zero l h = refl
last-set (x ∷ []) (suc i) l h = h
last-set (x ∷ y ∷ ts) zero l h = h
last-set (x ∷ y ∷ ts) (suc zero) l h = last-set (y ∷ ts) zero l h
last-set (x ∷ y ∷ ts) (suc (suc i)) l h = last-set (y ∷ ts) (suc i) l h

last-some : (x : Tunnel) (ts : List Tunnel) → (l : Tunnel) × (last? (x ∷ ts) ≡ some l)
unfolding last?
last-some x [] = (x, refl)
last-some x (y ∷ ts) = last-some y ts

count-swap_remove :
    (u : Uuid) (ts : List Tunnel) (i : ℕ) (a : Tunnel)
    → get_elem? ts i ≡ some a
    → count u (swap_remove i ts) + one u a ≡ count u ts
unfolding swap_remove
count-swap_remove u [] i a h = cc
count-swap_remove u (x ∷ ts) i a h =
    let (l, e) = last-some x ts in
    rw (e, swap_remove)
      (omega (
        arith,
        count-init u (set (x ∷ ts) i l) l (last-set (x ∷ ts) i l e),
        count-set u (x ∷ ts) i a l h,
      ))

-- The index that `position` finds holds a tunnel of the id, and it finds one if there is one.
position-some :
    (u : Tunnel) (ts : List Tunnel) (i : ℕ)
    → position (λ t. same_id t u) ts ≡ some i
    → (a : Tunnel) × (get_elem? ts i ≡ some a) × (same_id a u ≡ true)
unfolding position
position-some u [] i h = cc
position-some u (x ∷ ts) zero h = (x, refl, ground arith)
position-some u (x ∷ ts) (suc i) h = position-some u ts i (ground arith)

position-none :
    (u : Tunnel) (ts : List Tunnel) → position (λ t. same_id t u) ts ≡ none → count u.id ts ≡ 0
unfolding position count
position-none u [] h = refl
position-none u (x ∷ ts) h = ground (arith, position-none u ts)

-- When a tunnel ends, one entry of its id is taken from the ingress, if there is one, and the entries of
-- every other id stay.
pub count-on_closed :
    (t : Tunnel) (pool : Pool) (u : Uuid)
    → count u (on_closed t pool).tunnels ≡ count u pool.tunnels - one u t
unfolding on_closed
count-on_closed t pool u = elim (Option-cases (position (λ x. same_id x t) pool.tunnels)) [
  | inl e ↦
      rw (e, remove_tunnel) (ground (arith, position-none t pool.tunnels e, bytes_beq_iff t.id u))
  | inr (i, e) ↦
      let (a, at, same) = position-some t pool.tunnels i e in
      rw (e, remove_tunnel)
        (ground (arith, count-swap_remove u pool.tunnels i a at, bytes_beq_iff a.id t.id))
]
