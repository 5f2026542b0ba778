-- ===== src/Ingress/Pool/Refine.antt =====
-- server/ingress/tcp_ingress.rs and udp_ingress.rs: the vector of tunnels is a bag of tunnels, for assigning, for the
-- removal of ended tunnels, and for picking.
use mathlib.Core.Path.{subst}
use mathlib.Core.Quot
use siffleux.Prelude.{
  ℕ, ◌≡◌, ◌≤◌, Option, ◌⊎◌, inl, inr, refl, ap, ◌∙◌, none, some, List, [], ◌∷◌, map, arith, length,
  get_elem?, zero, suc, bytes_beq_iff,
}
use siffleux.Error.{Result, ok}
use siffleux.Frames.{Uuid}
use siffleux.Tunnel.{Tunnel}
use siffleux.Ingress.Pool.{Pool, push, on_closed, get_tunnel_to_connect}
use siffleux.Ingress.Pool.Removal.{count, count-on_closed}
use siffleux.Ingress.Pool.Rotation.{slot, get_tunnel_total}
use siffleux.Ingress.Pool.Race.{count-push}
use siffleux.Ingress.Pool.Bag.{Bag, count_id, occurrences, insert_id, remove_id, count-remove_first}

-- A tunnel is assigned, a tunnel's end is noticed, or a tunnel is picked.
pub data PoolStep : Type 0 where
  assigned : Tunnel → PoolStep
  ended : Tunnel → PoolStep
  picked : PoolStep

unfoldable pub pool_step : PoolStep → Pool → Pool
pool_step (assigned t) pool = push t pool
pool_step (ended t) pool = on_closed t pool
pool_step picked pool = (get_tunnel_to_connect pool).1

unfoldable pub pool_run : List PoolStep → Pool → Pool
unfolding pool_step
pool_run [] pool = pool
pool_run (s ∷ steps) pool = pool_run steps (pool_step s pool)

-- The same on bags: picking changes nothing.
abbrev pub bag_step : PoolStep → Bag → Bag
bag_step (assigned t) bag = insert_id t.id bag
bag_step (ended t) bag = remove_id t.id bag
bag_step picked bag = bag

unfoldable pub bag_run : List PoolStep → Bag → Bag
bag_run [] bag = bag
bag_run (s ∷ steps) bag = bag_run steps (bag_step s bag)

abbrev pub ids : Pool → List Uuid
ids pool = map (λ t. t.id) pool.tunnels

abbrev pub view : Pool → Bag
view pool = Quot.mk (ids pool)

count-ids : (u : Uuid) (ts : List Tunnel) → count_id u (map (λ t. t.id) ts) ≡ count u ts
unfolding count_id count
count-ids u [] = refl
count-ids u (t ∷ ts) = omega (arith, count-ids u ts)

view-push : (t : Tunnel) (pool : Pool) → view (push t pool) ≡ insert_id t.id (view pool)
unfolding count_id
view-push t pool = Quot.sound (λ u.
    omega (arith, count-ids u (push t pool).tunnels, count-ids u pool.tunnels, count-push u t pool))

view-on_closed : (t : Tunnel) (pool : Pool) → view (on_closed t pool) ≡ remove_id t.id (view pool)
view-on_closed t pool = Quot.sound (λ u. omega (
  arith,
  count-ids u (on_closed t pool).tunnels,
  count-ids u pool.tunnels,
  count-on_closed t pool u,
  count-remove_first t.id u (ids pool),
))

view-pick : (pool : Pool) → view (get_tunnel_to_connect pool).1 ≡ view pool
unfolding get_tunnel_to_connect
view-pick pool = elim (get_tunnel_total pool) [
  | inl (_, same_pool) ↦ ap (λ r. view r.1) same_pool
  | inr (_, _, _, kept) ↦ ap (λ ts. Quot.mk (map (λ t. t.id) ts)) kept
]

view-step : (s : PoolStep) (pool : Pool) → view (pool_step s pool) ≡ bag_step s (view pool)
unfolding pool_step
view-step (assigned t) pool = view-push t pool
view-step (ended t) pool = view-on_closed t pool
view-step picked pool = view-pick pool

view-pool_run :
    (steps : List PoolStep) (pool : Pool) → view (pool_run steps pool) ≡ bag_run steps (view pool)
unfolding pool_run bag_run
view-pool_run [] pool = refl
view-pool_run (s ∷ steps) pool =
    view-pool_run steps (pool_step s pool) ∙ ap (bag_run steps) (view-step s pool)

empty_count : (u : Uuid) (ts : List Tunnel) → length ts ≡ 0 → count_id u (map (λ t. t.id) ts) ≡ 0
unfolding count_id
empty_count u [] h = refl
empty_count u (t ∷ ts) h = absurd (omega (arith, h))

count-get : (ts : List Tunnel) (i : ℕ) (t : Tunnel) → get_elem? ts i ≡ some t → 1 ≤ count t.id ts
unfolding count
count-get [] i t h = cc
count-get (x ∷ ts) zero t h = let e : x ≡ t = cc in rw e (ground (arith, bytes_beq_iff t.id t.id))
count-get (x ∷ ts) (suc i) t h = omega (arith, count-get ts i t h)

-- What a pick finds in a bag: nothing if it is empty, and one of its ids otherwise.
abbrev pub PicksFrom : Bag → Result (Option Tunnel) → Type 0
PicksFrom bag result =
    ((result ≡ ok none) × ((u : Uuid) → occurrences u bag ≡ 0))
    ⊎ ((t : Tunnel) × (result ≡ ok (some t)) × (1 ≤ occurrences t.id bag))

picks-view : (pool : Pool) → PicksFrom (view pool) (get_tunnel_to_connect pool).0
unfolding count_id
picks-view pool = elim (get_tunnel_total pool) [
  | inl (empty, same_pool) ↦ inl (ap (λ r. r.0) same_pool, λ u. empty_count u pool.tunnels empty)
  | inr (t, at, got, _) ↦ inr (
    t,
    got,
    omega (
      arith,
      count-ids t.id pool.tunnels,
      count-get pool.tunnels (slot pool.tunnel_rotation (length pool.tunnels)) t at,
    ),
  )
]

-- The vector of an ingress's tunnels, under any sequence of assigning, ending and picking, is the bag of their ids under the
-- same sequence: assigning adds an id, the end of a tunnel takes one away, and picking changes nothing; and
-- the next pick gives a tunnel of that bag, or nothing exactly if the bag is empty.
pub pool_run-Bag :
    (steps : List PoolStep) (pool : Pool)
    → (view (pool_run steps pool) ≡ bag_run steps (view pool))
      × PicksFrom (bag_run steps (view pool)) (get_tunnel_to_connect (pool_run steps pool)).0
pool_run-Bag steps pool =
    let e = view-pool_run steps pool in
    (
      e,
      subst (λ b. PicksFrom b (get_tunnel_to_connect (pool_run steps pool)).0) e
          (picks-view (pool_run steps pool)),
    )
