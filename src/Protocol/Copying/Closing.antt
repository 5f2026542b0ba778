-- ===== src/Protocol/Copying/Closing.antt =====
-- siffleux/src/common/protocols/v1.rs: each write end is closed exactly once, and a failure ends both tasks.
use mathlib.Core.List.{Memᴰ}
use mathlib.Core.List.Memᴰ.{head, tail}
use siffleux.Prelude.{sym, ◌≡◌, ◌⊎◌, inl, refl, true, false, List, [], ◌∷◌, arith}
use siffleux.Error.Convert.{unknown_error_code}
use siffleux.Protocol.Copying.{
  is_cancelled, copy_run, begin, shutdown, Call, finish, reset, Copier, Streaming, CopyEvent,
  copy_turn, end_with, tcp_read_closed, tcp_to_tunnel_failed, tcp_to_tunnel_sees_token,
  tunnel_read_closed, tunnel_to_tcp_failed, tunnel_to_tcp_sees_token, parent_token,
}

-- A task that runs has not touched its write end; one that has returned has made just one of the closing calls.
abbrev pub IsClosedOnce : List Call → List Call → Copier → Type 0
IsClosedOnce a b c =
    ((c.running ≡ true) × (c.calls ≡ [])) ⊎ ((c.running ≡ false) × ((c.calls ≡ a) ⊎ (c.calls ≡ b)))

pub record IsConsistent (s : Streaming) : Type 0 where
  pub upward : IsClosedOnce (finish ∷ []) (reset unknown_error_code ∷ []) s.tcp_to_tunnel
  pub downward : IsClosedOnce (shutdown ∷ []) (shutdown ∷ []) s.tunnel_to_tcp

turn-IsConsistent : (e : CopyEvent) (s : Streaming) → IsConsistent s → IsConsistent (copy_turn e s)
unfolding copy_turn end_with
turn-IsConsistent tcp_read_closed s h = record {
  upward = ground (arith, h.upward);
  downward = ground (arith, h.downward);
}
turn-IsConsistent tcp_to_tunnel_failed s h = record {
  upward = ground (arith, h.upward);
  downward = ground (arith, h.downward);
}
turn-IsConsistent tcp_to_tunnel_sees_token s h = record {
  upward = ground (arith, h.upward);
  downward = ground (arith, h.downward);
}
turn-IsConsistent tunnel_read_closed s h = record {
  upward = ground (arith, h.upward);
  downward = ground (arith, h.downward);
}
turn-IsConsistent tunnel_to_tcp_failed s h = record {
  upward = ground (arith, h.upward);
  downward = ground (arith, h.downward);
}
turn-IsConsistent tunnel_to_tcp_sees_token s h = record {
  upward = ground (arith, h.upward);
  downward = ground (arith, h.downward);
}
turn-IsConsistent parent_token s h = record { upward = h.upward; downward = h.downward }

-- What every event keeps, a run keeps.
pub run-keeps :
    (P : Streaming → Type 0)
    → ((e : CopyEvent) (s : Streaming) → P s → P (copy_turn e s))
    → (events : List CopyEvent) (s : Streaming) → P s
    → P (copy_run events s)
unfolding copy_run
run-keeps P keeps [] s h = h
run-keeps P keeps (e ∷ events) s h = run-keeps P keeps events (copy_turn e s) (keeps e s h)

-- Whatever happens, and in whatever order: a task that still runs has not touched its write end; the task towards the
-- tunnel has closed it by exactly one call, `finish` or `reset` with the code of an unknown error, once it has returned;
-- and so has the task towards the TCP connection, by one `shutdown`.
pub closed_once : (events : List CopyEvent) → IsConsistent (copy_run events begin)
unfolding begin
closed_once events =
    run-keeps IsConsistent turn-IsConsistent events begin
      (record { upward = inl (refl, refl); downward = inl (refl, refl) })

-- A cancelled token stays cancelled, and a task that has returned does not run again.
turn-cancelled :
    (e : CopyEvent) (s : Streaming) → is_cancelled s ≡ true → is_cancelled (copy_turn e s) ≡ true
unfolding copy_turn is_cancelled
turn-cancelled tcp_read_closed s h = ground arith
turn-cancelled tcp_to_tunnel_failed s h = ground arith
turn-cancelled tcp_to_tunnel_sees_token s h = ground arith
turn-cancelled tunnel_read_closed s h = ground arith
turn-cancelled tunnel_to_tcp_failed s h = ground arith
turn-cancelled tunnel_to_tcp_sees_token s h = ground arith
turn-cancelled parent_token s h = ground arith

turn-up_ended :
    (e : CopyEvent) (s : Streaming)
    → s.tcp_to_tunnel.running ≡ false
    → (copy_turn e s).tcp_to_tunnel.running ≡ false
unfolding copy_turn
turn-up_ended tcp_read_closed s h = ground arith
turn-up_ended tcp_to_tunnel_failed s h = ground arith
turn-up_ended tcp_to_tunnel_sees_token s h = ground arith
turn-up_ended tunnel_read_closed s h = ground arith
turn-up_ended tunnel_to_tcp_failed s h = ground arith
turn-up_ended tunnel_to_tcp_sees_token s h = ground arith
turn-up_ended parent_token s h = ground arith

turn-down_ended :
    (e : CopyEvent) (s : Streaming)
    → s.tunnel_to_tcp.running ≡ false
    → (copy_turn e s).tunnel_to_tcp.running ≡ false
unfolding copy_turn
turn-down_ended tcp_read_closed s h = ground arith
turn-down_ended tcp_to_tunnel_failed s h = ground arith
turn-down_ended tcp_to_tunnel_sees_token s h = ground arith
turn-down_ended tunnel_read_closed s h = ground arith
turn-down_ended tunnel_to_tcp_failed s h = ground arith
turn-down_ended tunnel_to_tcp_sees_token s h = ground arith
turn-down_ended parent_token s h = ground arith

sees-up :
    (s : Streaming)
    → is_cancelled s ≡ true
    → (copy_turn tcp_to_tunnel_sees_token s).tcp_to_tunnel.running ≡ false
unfolding copy_turn end_with
sees-up s h = ground arith

sees-down :
    (s : Streaming)
    → is_cancelled s ≡ true
    → (copy_turn tunnel_to_tcp_sees_token s).tunnel_to_tcp.running ≡ false
unfolding copy_turn end_with
sees-down s h = ground arith

-- A cancelled token that a task sees, whatever happens before and after, ends the task.
up_ends :
    (events : List CopyEvent) (s : Streaming)
    → is_cancelled s ≡ true
    → Memᴰ tcp_to_tunnel_sees_token events
    → (copy_run events s).tcp_to_tunnel.running ≡ false
unfolding copy_run
up_ends [] s h m = elim m [ ]
up_ends (e ∷ events) s h (head same) =
    run-keeps (λ x. x.tcp_to_tunnel.running ≡ false) turn-up_ended events (copy_turn e s)
      (rw (sym same) (sees-up s h))
up_ends (e ∷ events) s h (tail m) = up_ends events (copy_turn e s) (turn-cancelled e s h) m

down_ends :
    (events : List CopyEvent) (s : Streaming)
    → is_cancelled s ≡ true
    → Memᴰ tunnel_to_tcp_sees_token events
    → (copy_run events s).tunnel_to_tcp.running ≡ false
unfolding copy_run
down_ends [] s h m = elim m [ ]
down_ends (e ∷ events) s h (head same) =
    run-keeps (λ x. x.tunnel_to_tcp.running ≡ false) turn-down_ended events (copy_turn e s)
      (rw (sym same) (sees-down s h))
down_ends (e ∷ events) s h (tail m) = down_ends events (copy_turn e s) (turn-cancelled e s h) m

-- Once the token is cancelled, both tasks have returned after any events among which each task sees the token, in any
-- order and whatever else happens.
pub cancelled_ends :
    (s : Streaming) (events : List CopyEvent)
    → is_cancelled s ≡ true
    → Memᴰ tcp_to_tunnel_sees_token events
    → Memᴰ tunnel_to_tcp_sees_token events
    → ((copy_run events s).tcp_to_tunnel.running ≡ false)
      × ((copy_run events s).tunnel_to_tcp.running ≡ false)
cancelled_ends s events h up down = (up_ends events s h up, down_ends events s h down)
