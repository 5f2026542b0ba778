-- ===== src/System/Pools.antt =====
-- What the tasks of an ingress keep: its id and key, and what holds of all its tunnels.
use mathlib.Core.Path.{subst}
use siffleux.Prelude.{
  Bool, ℕ, zero, suc, ◌≡◌, refl, some, List, [], ◌∷◌, ◌++◌, All, set, inl, inr, arith, Option-cases,
}
use siffleux.Error.{Result}
use siffleux.Frames.{SocketAddr}
use siffleux.ByteCounter.{Counters}
use siffleux.Tunnel.{Tunnel, same_id}
use siffleux.Ingress.Trait.{Bound}
use siffleux.Ingress.Tcp
use siffleux.Ingress.Tcp.Accept.{AcceptEvent}
use siffleux.Ingress.Tcp.Loops
use siffleux.Ingress.Udp
use siffleux.Ingress.Udp.{SocketEvent}
use siffleux.Ingress.Pool
use siffleux.Ingress.Pool.{
  Pool, last?, init, swap_remove, remove_tunnel, position, get_tunnel_to_connect,
}
use siffleux.Ingress.Boxed
use siffleux.Ingress.Boxed.{BoxedIngress}

module _ {A : Type 0} (P : A → Type 0) where
  pub All-append : (xs ys : List A) → All P xs → All P ys → All P (xs ++ ys)
  All-append [] ys a b = b
  All-append (x ∷ xs) ys a b = (a.0, All-append xs ys a.1 b)

  All-init : (xs : List A) → All P xs → All P (init xs)
  unfolding init
  All-init [] a = tt
  All-init (x ∷ []) a = tt
  All-init (x ∷ y ∷ xs) a = (a.0, All-init (y ∷ xs) a.1)

  All-last : (xs : List A) (l : A) → last? xs ≡ some l → All P xs → P l
  unfolding last?
  All-last [] l h a = cc
  All-last (x ∷ []) l h a = let e : x ≡ l = cc h in subst P e a.0
  All-last (x ∷ y ∷ xs) l h a = All-last (y ∷ xs) l h a.1

  All-set : (xs : List A) (i : ℕ) (v : A) → P v → All P xs → All P (set xs i v)
  All-set [] i v p a = tt
  All-set (x ∷ xs) zero v p a = (p, a.1)
  All-set (x ∷ xs) (suc i) v p a = (a.0, All-set xs i v p a.1)

  All-swap_remove : (i : ℕ) (xs : List A) → All P xs → All P (swap_remove i xs)
  unfolding swap_remove
  All-swap_remove i xs a = elim (Option-cases (last? xs)) [
    | inl e ↦ rw (e, swap_remove) a
    | inr (l, e) ↦
        rw (e, swap_remove) (All-init (set xs i l) (All-set xs i l (All-last xs l e a) a))
  ]

  pub All-map : {Q : A → Type 0} → ((x : A) → P x → Q x) → (xs : List A) → All P xs → All Q xs
  All-map f [] a = tt
  All-map f (x ∷ xs) a = (f x a.0, All-map f xs a.1)

module _ (P : Tunnel → Type 0) where
  All-remove_tunnel : (t : Tunnel) (ts : List Tunnel) → All P ts → All P (remove_tunnel t ts)
  unfolding remove_tunnel
  All-remove_tunnel t ts a = elim (Option-cases (position (λ x. same_id x t) ts)) [
    | inl e ↦ rw (e, remove_tunnel) a
    | inr (i, e) ↦ rw (e, remove_tunnel) (All-swap_remove P i ts a)
  ]

-- What a change of an ingress keeps.
pub record Keeps (i i' : BoxedIngress) : Type 1 where
  pub id : Boxed.id i' ≡ Boxed.id i
  pub auth_key : Boxed.auth_key i' ≡ Boxed.auth_key i
  pub tunnels : (P : Tunnel → Type 0) → All P (Boxed.pool i).tunnels → All P (Boxed.pool i').tunnels

same_pool-Keeps :
    (i i' : BoxedIngress)
    → Boxed.id i' ≡ Boxed.id i
    → Boxed.auth_key i' ≡ Boxed.auth_key i
    → (Boxed.pool i').tunnels ≡ (Boxed.pool i).tunnels
    → Keeps i i'
same_pool-Keeps i i' e k p = record { id = e; auth_key = k; tunnels = λ P a. rw p a }

pub on_closed-Keeps : (t : Tunnel) (i : BoxedIngress) → Keeps i (Boxed.on_closed t i)
unfolding Boxed.on_closed Pool.on_closed
on_closed-Keeps t (BoxedIngress.tcp s) = record {
  id = refl;
  auth_key = refl;
  tunnels = λ P a. All-remove_tunnel P t s.pool.tunnels a;
}
on_closed-Keeps t (BoxedIngress.udp s) = record {
  id = refl;
  auth_key = refl;
  tunnels = λ P a. All-remove_tunnel P t s.pool.tunnels a;
}

tunnels-pick : (pool : Pool) → (get_tunnel_to_connect pool).1.tunnels ≡ pool.tunnels
unfolding get_tunnel_to_connect
tunnels-pick pool = ground arith

pub start-Keeps : (b : Bound) (i : BoxedIngress) → Keeps i (Boxed.start b i).1
unfolding Boxed.start Tcp.start Udp.start Tcp.bind Udp.bind
start-Keeps b (BoxedIngress.tcp s) =
    same_pool-Keeps (BoxedIngress.tcp s) (Boxed.start b (BoxedIngress.tcp s)).1 (ground arith)
      (ground arith) (ground arith)
start-Keeps b (BoxedIngress.udp s) =
    same_pool-Keeps (BoxedIngress.udp s) (Boxed.start b (BoxedIngress.udp s)).1 (ground arith)
      (ground arith) (ground arith)

pub stop-Keeps : (i : BoxedIngress) → Keeps i (Boxed.stop i).1
unfolding Boxed.stop Tcp.stop Udp.stop
stop-Keeps (BoxedIngress.tcp s) =
    same_pool-Keeps (BoxedIngress.tcp s) (Boxed.stop (BoxedIngress.tcp s)).1 (ground arith)
      (ground arith) (ground arith)
stop-Keeps (BoxedIngress.udp s) =
    same_pool-Keeps (BoxedIngress.udp s) (Boxed.stop (BoxedIngress.udp s)).1 (ground arith)
      (ground arith) (ground arith)

pub handle_stream-Keeps :
    (peer : Result SocketAddr) (opened : Result ℕ) (i : BoxedIngress) (cs : Counters)
    → Keeps i (Boxed.handle_stream peer opened i cs).0
unfolding Boxed.handle_stream Tcp.handle_stream
handle_stream-Keeps peer opened (BoxedIngress.tcp s) cs =
    same_pool-Keeps (BoxedIngress.tcp s) (Boxed.handle_stream peer opened (BoxedIngress.tcp s) cs).0
      (ground arith) (ground arith) (ground (arith, tunnels-pick s.pool))
handle_stream-Keeps peer opened (BoxedIngress.udp s) cs =
    same_pool-Keeps (BoxedIngress.udp s) (BoxedIngress.udp s) refl refl refl

pub socket_turn-Keeps :
    (event : SocketEvent) (i : BoxedIngress) → Keeps i (Boxed.socket_turn event i)
unfolding Boxed.socket_turn Udp.socket_turn Udp.forward Udp.send_to_tunnel
socket_turn-Keeps event (BoxedIngress.tcp s) =
    same_pool-Keeps (BoxedIngress.tcp s) (BoxedIngress.tcp s) refl refl refl
socket_turn-Keeps event (BoxedIngress.udp s) =
    same_pool-Keeps (BoxedIngress.udp s) (Boxed.socket_turn event (BoxedIngress.udp s))
      (ground arith) (ground arith) (ground (arith, tunnels-pick s.pool))

pub loop_turn-Keeps :
    (l : ℕ) (d : Bool) (e : AcceptEvent) (i : BoxedIngress) → Keeps i (Boxed.loop_turn l d e i)
unfolding Boxed.loop_turn Loops.loop_turn
loop_turn-Keeps l d e (BoxedIngress.tcp s) =
    same_pool-Keeps (BoxedIngress.tcp s) (Boxed.loop_turn l d e (BoxedIngress.tcp s)) (ground arith)
      (ground arith) (ground arith)
loop_turn-Keeps l d e (BoxedIngress.udp s) =
    same_pool-Keeps (BoxedIngress.udp s) (BoxedIngress.udp s) refl refl refl

pub All-assign_tunnel :
    (P : Tunnel → Type 0) (t : Tunnel) (i : BoxedIngress)
    → All P (Boxed.pool i).tunnels
    → P t
    → All P (Boxed.pool (Boxed.assign_tunnel t i).1).tunnels
unfolding Boxed.assign_tunnel Tcp.assign_tunnel Udp.assign_tunnel Pool.push
All-assign_tunnel P t (BoxedIngress.tcp s) a p = All-append P s.pool.tunnels (t ∷ []) a (p, tt)
All-assign_tunnel P t (BoxedIngress.udp s) a p = elim (Option-cases s.udp_socket) [
  | inl e ↦ rw (e, Udp.assign_tunnel) a
  | inr (socket, e) ↦ rw (e, Udp.assign_tunnel) (All-append P s.pool.tunnels (t ∷ []) a (p, tt))
]
