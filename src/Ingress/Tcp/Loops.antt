-- ===== src/Ingress/Tcp/Loops.antt =====
-- siffleux/src/server/ingress/tcp_ingress.rs: the accept loops of an ingress, over its whole life. A loop has a handle of
-- its own to its listener, and ends by what `handle_listener` meets only.
use mathlib.Core.List.{Memᴰ}
use mathlib.Core.List.Memᴰ.{head, tail}
use siffleux.Prelude.{
  ℕ, ◌≡◌, ◌≢◌, ◌⊎◌, ◌==◌, inl, inr, refl, arith, Bool, Bool-cases, none, some, List, [], ◌∷◌, All,
  Option-cases, if◌then◌else◌,
}
use siffleux.Error.{Result, ok, err, panic}
use siffleux.Frames.{SocketAddr}
use siffleux.Tunnel.{Tunnel}
use siffleux.Ingress.Trait.{Bound}
use siffleux.Ingress.Pool
use siffleux.Ingress.Tcp.{TcpIngress, bind, start, stop, assign_tunnel, socket_addr}
use siffleux.Ingress.Tcp.Accept.{AcceptEvent, AcceptTurn, goes_on, returns, accept_turn}

unfoldable pub without : ℕ → List ℕ → List ℕ
without l [] = []
without l (x ∷ xs) = let rest = without l xs in if x == l then rest else x ∷ rest

-- What the loop over a listener meets; when it returns, its task is over.
unfoldable pub loop_turn : ℕ → Bool → AcceptEvent → TcpIngress → TcpIngress
unfolding without
loop_turn listener debug_enabled event s = elim (accept_turn debug_enabled event) [
  | goes_on ↦ s
  | returns _ ↦ record s { listeners = without listener s.listeners }
]

-- What can happen to an ingress: a method is called, one of its tunnels ends, or a loop meets an event.
pub data TcpCall : Type 0 where
  starts : Bound → TcpCall
  stops : TcpCall
  assigns : Tunnel → TcpCall
  ends : Tunnel → TcpCall
  accepts : ℕ → Bool → AcceptEvent → TcpCall

unfoldable pub call : TcpCall → TcpIngress → TcpIngress
unfolding start stop assign_tunnel loop_turn
call (starts bound) s = (start bound s).1
call stops s = (stop s).1
call (assigns tunnel) s = (assign_tunnel tunnel s).1
call (ends tunnel) s = record s { pool = Pool.on_closed tunnel s.pool }
call (accepts listener debug_enabled event) s = loop_turn listener debug_enabled event s

unfoldable pub call_all : List TcpCall → TcpIngress → TcpIngress
unfolding call
call_all [] s = s
call_all (c ∷ calls) s = call_all calls (call c s)

-- Nothing by which `handle_listener` returns for this listener.
abbrev pub Spares : ℕ → TcpCall → Type 0
Spares l (starts bound) = Unit
Spares l stops = Unit
Spares l (assigns tunnel) = Unit
Spares l (ends tunnel) = Unit
Spares l (accepts j debug_enabled event) = (j ≢ l) ⊎ (accept_turn debug_enabled event ≡ goes_on)

without-other : (j l : ℕ) (xs : List ℕ) → j ≢ l → Memᴰ l xs → Memᴰ l (without j xs)
unfolding without
without-other j l [] other m = m
without-other j l (x ∷ xs) other (head e) = elim (Bool-cases (x == j)) [
  | inl same ↦ absurd (other (ground (arith, same, e)))
  | inr differs ↦ rw (differs, without) (head e)
]
without-other j l (x ∷ xs) other (tail m) = elim (Bool-cases (x == j)) [
  | inl same ↦ rw (same, without) (without-other j l xs other m)
  | inr differs ↦ rw (differs, without) (tail (without-other j l xs other m))
]

listens-bind :
    (l : ℕ) (bound : Bound) (s : TcpIngress)
    → Memᴰ l s.listeners
    → Memᴰ l (bind bound s).1.listeners
unfolding bind
listens-bind l (err e) s m = m
listens-bind l panic s m = m
listens-bind l (ok (j, err e)) s m = m
listens-bind l (ok (j, panic)) s m = m
listens-bind l (ok (j, ok addr)) s m = tail m

start_cases :
    (bound : Bound) (s : TcpIngress) → (start bound s ≡ bind bound s) ⊎ ((start bound s).1 ≡ s)
unfolding start
start_cases bound s = elim (Option-cases s.tcp_listener) [
  | inl free ↦ inl (ground (arith, free))
  | inr (j, held) ↦ inr (ground (arith, held))
]

listens-start :
    (l : ℕ) (bound : Bound) (s : TcpIngress)
    → Memᴰ l s.listeners
    → Memᴰ l (start bound s).1.listeners
listens-start l bound s m = elim (start_cases bound s) [
  | inl binds ↦ rw binds (listens-bind l bound s m)
  | inr stays ↦ rw stays m
]

listeners-stop : (s : TcpIngress) → (stop s).1.listeners ≡ s.listeners
unfolding stop
listeners-stop s = ground arith

turn-cases : (t : AcceptTurn) → (t ≡ goes_on) ⊎ ((r : Result (Unit {0})) × (t ≡ returns r))
turn-cases goes_on = inl refl
turn-cases (returns r) = inr (r, refl)

loop-other :
    (j l : ℕ) (d : Bool) (e : AcceptEvent) (s : TcpIngress)
    → j ≢ l
    → Memᴰ l s.listeners
    → Memᴰ l (loop_turn j d e s).listeners
unfolding loop_turn
loop-other j l d e s other m = elim (turn-cases (accept_turn d e)) [
  | inl on ↦ rw (loop_turn, on) m
  | inr (r, over) ↦ rw (loop_turn, over) (without-other j l s.listeners other m)
]

listens-call :
    (l : ℕ) (c : TcpCall) (s : TcpIngress)
    → Spares l c
    → Memᴰ l s.listeners
    → Memᴰ l (call c s).listeners
unfolding call
listens-call l (starts bound) s h m = listens-start l bound s m
listens-call l stops s h m = rw (listeners-stop s) m
listens-call l (assigns tunnel) s h m = m
listens-call l (ends tunnel) s h m = m
listens-call l (accepts j d e) s (inl other) m = loop-other j l d e s other m
listens-call l (accepts j d e) s (inr on) m = rw (on, loop_turn) m

listens-call_all :
    (l : ℕ) (calls : List TcpCall) (s : TcpIngress)
    → All (Spares l) calls
    → Memᴰ l s.listeners
    → Memᴰ l (call_all calls s).listeners
unfolding call_all
listens-call_all l [] s h m = m
listens-call_all l (c ∷ calls) s h m =
    listens-call_all l calls (call c s) h.1 (listens-call l c s h.0 m)

-- When an ingress that did not listen is started and then stopped, it still shows the address that it listened on,
-- although it holds no listener; and the accept loop of the start runs on, whatever methods are called after the stop,
-- further stops included, as long as the loop itself meets no event by which it returns.
pub stop_keeps_accepting :
    (s : TcpIngress) (l : ℕ) (a : SocketAddr) (calls : List TcpCall)
    → s.tcp_listener ≡ none
    → All (Spares l) calls
    → let stopped = (stop (start (ok (l, ok a)) s).1).1 in
      (stopped.tcp_listener ≡ none)
      × (socket_addr stopped ≡ some a)
      × Memᴰ l (call_all calls stopped).listeners
unfolding start stop bind socket_addr
stop_keeps_accepting s l a calls free h =
    let stopped = (stop (start (ok (l, ok a)) s).1).1 in
    let listening : stopped.listeners ≡ l ∷ s.listeners = ground (arith, free) in
    (
      ground (arith, free),
      ground (arith, free),
      listens-call_all l calls stopped h (rw listening (head refl)),
    )
