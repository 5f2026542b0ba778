-- ===== src/Ingress/Pool.antt =====
-- The tunnels of an ingress: `tunnels` and `tunnel_rotation` of server/ingress/tcp_ingress.rs and
-- server/ingress/udp_ingress.rs, whose code for them is the same.
pub mod Removal
pub mod Rotation
pub mod Race
pub mod Bag
pub mod Refine
use siffleux.Prelude.{
  ℕ, zero, suc, ◌+◌, ◌%◌, ◌^◌, Bool, Option, none, some, List, [], ◌∷◌, ◌++◌, length, get_elem?,
  set, ◌==◌, if◌then◌else◌,
}
use siffleux.Error.{Result, ok, panic}
use siffleux.Tunnel.{Tunnel, same_id}

-- `iter().position(…)`
unfoldable pub position {ℓ} : {A : Type ℓ} → (A → Bool) → List A → Option ℕ
position p [] = none
position p (x ∷ xs) =
    if p x then some 0 else (elim (position p xs) [ none ↦ none | some i ↦ some (suc i) ])

unfoldable pub last? {ℓ} : {A : Type ℓ} → List A → Option A
last? [] = none
last? (x ∷ []) = some x
last? (x ∷ y ∷ xs) = last? (y ∷ xs)

unfoldable pub init {ℓ} : {A : Type ℓ} → List A → List A
init [] = []
init (x ∷ []) = []
init (x ∷ y ∷ xs) = x ∷ init (y ∷ xs)

-- `Vec::swap_remove`: the last element takes the place of the one that goes.
unfoldable pub swap_remove {ℓ} : {A : Type ℓ} → ℕ → List A → List A
unfolding last? init
swap_remove i xs = elim (last? xs) [ none ↦ xs | some l ↦ init (set xs i l) ]

pub record Pool : Type 0 where
  pub tunnels : List Tunnel
  pub tunnel_rotation : ℕ

abbrev pub empty : Pool
empty = record { tunnels = []; tunnel_rotation = 0 }

-- `self.inner.tunnels.write().push(tunnel)`
unfoldable pub push : Tunnel → Pool → Pool
push tunnel pool = record pool { tunnels = pool.tunnels ++ (tunnel ∷ []) }

unfoldable pub remove_tunnel : Tunnel → List Tunnel → List Tunnel
remove_tunnel tunnel tunnels = elim (position (λ t. same_id t tunnel) tunnels) [
  | none ↦ tunnels
  | some i ↦ swap_remove i tunnels
]

-- What the task that waits for the tunnel's end does once it has ended.
unfoldable pub on_closed : Tunnel → Pool → Pool
unfolding remove_tunnel
on_closed tunnel pool = record pool { tunnels = remove_tunnel tunnel pool.tunnels }

-- `tunnels[i].clone()`
unfoldable pub tunnel_at : List Tunnel → ℕ → Result (Option Tunnel)
tunnel_at tunnels i = elim (get_elem? tunnels i) [ none ↦ panic | some t ↦ ok (some t) ]

unfoldable pub get_tunnel_to_connect : Pool → Result (Option Tunnel) × Pool
unfolding tunnel_at
get_tunnel_to_connect pool =
    if length pool.tunnels == 0
    then (ok none, pool)
    else if length pool.tunnels == 1
    then (tunnel_at pool.tunnels 0, pool)
    else (
      tunnel_at pool.tunnels (pool.tunnel_rotation % length pool.tunnels),
      record pool { tunnel_rotation = (pool.tunnel_rotation + 1) % 2 ^ 64 },
    )
