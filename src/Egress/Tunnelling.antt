-- ===== src/Egress/Tunnelling.antt =====
-- client/egress/tcp_egress.rs and client/egress/udp_egress.rs: the task that `start_tunnel` spawns, which
-- keeps a tunnel to the server. What the two do with a tunnel's traffic lies elsewhere; how they
-- connect, wait and end is the same.
pub mod Retries
use siffleux.Prelude.{ℕ, Bool, true, false, Option, none, some, List, [], ◌∷◌}
use siffleux.Error.{Result, ok, err, panic}
use siffleux.Egress.Backoff.{reconnect_delay, next_retry}

-- client/egress/egress.rs
pub data State : Type 0 where
  stopped starting ready : State

-- Where the task is: connecting after `retry` failures, waiting for some milliseconds, in a tunnel,
-- returned, or unwound by a panic.
pub data Phase : Type 0 where
  connecting : ℕ → Phase
  waiting : ℕ → ℕ → Phase
  tunnelling : Phase
  finished : Phase
  crashed : Phase

-- `connect_panics` is a panic while connecting, and `traffic_panics` a datagram that `process_datagram` of a
-- UDP egress panics at.
pub data TaskEvent : Type 0 where
  connected : TaskEvent
  refused : TaskEvent
  connect_panics : TaskEvent
  slept : TaskEvent
  tunnel_closed : TaskEvent
  traffic : TaskEvent
  traffic_panics : TaskEvent
  cancelled : TaskEvent

-- The next phase, the state that is published, and whether the tunnel is closed.
pub record TaskTurn : Type 0 where
  pub phase : Phase
  pub publishes : Option State
  pub closes_tunnel : Bool

abbrev pub silent : Phase → TaskTurn
silent phase = record { phase = phase; publishes = none; closes_tunnel = false }

unfoldable pub wait_or_crash : ℕ → Result ℕ → Phase
wait_or_crash retry (ok delay) = waiting retry delay
wait_or_crash retry (err e) = crashed
wait_or_crash retry panic = crashed

unfoldable pub retry_or_crash : Result ℕ → Phase
retry_or_crash (ok retry) = connecting retry
retry_or_crash (err e) = crashed
retry_or_crash panic = crashed

-- An event that the phase does not wait for changes nothing.
unfoldable pub task_turn : Bool → Phase → TaskEvent → TaskTurn
unfolding wait_or_crash retry_or_crash
task_turn overflow_checks (connecting retry) connected = record {
  phase = tunnelling;
  publishes = some ready;
  closes_tunnel = false;
}
task_turn overflow_checks (connecting retry) refused =
    silent (wait_or_crash retry (reconnect_delay overflow_checks retry))
task_turn overflow_checks (connecting retry) connect_panics = silent crashed
task_turn overflow_checks (connecting retry) e = silent (connecting retry)
task_turn overflow_checks (waiting retry delay) slept =
    silent (retry_or_crash (next_retry overflow_checks retry))
task_turn overflow_checks (waiting retry delay) cancelled = silent finished
task_turn overflow_checks (waiting retry delay) e = silent (waiting retry delay)
task_turn overflow_checks tunnelling tunnel_closed = silent (connecting 0)
task_turn overflow_checks tunnelling cancelled = record {
  phase = finished;
  publishes = none;
  closes_tunnel = true;
}
task_turn overflow_checks tunnelling traffic_panics = silent crashed
task_turn overflow_checks tunnelling e = silent tunnelling
task_turn overflow_checks finished e = silent finished
task_turn overflow_checks crashed e = silent crashed

-- The phase after a sequence of events.
unfoldable pub task_run : Bool → Phase → List TaskEvent → Phase
unfolding task_turn
task_run overflow_checks phase [] = phase
task_run overflow_checks phase (e ∷ events) =
    task_run overflow_checks (task_turn overflow_checks phase e).phase events
