-- ===== src/Egress/Lifecycle.antt =====
-- client/egress/tcp_egress.rs and client/egress/udp_egress.rs: `new`, `start` and `stop`, which are the
-- same in both. `stop` awaits the end of the task between taking the process and publishing the
-- state, so it is two functions here, between which others may run.
pub mod Sequences
pub mod Calls
pub mod Hidden
use siffleux.Prelude.{Bool, true, false, ℕ, Option, none, some, List, [], ◌∷◌}
use siffleux.Error.{
  Error, Result, ok, err, panic, egress_already_started, egress_not_started, ◌>>=◌,
}
use siffleux.Ids.Names.{EgressId, IngressId}
use siffleux.Frames.{SocketAddr}
use siffleux.Egress.Tunnelling.{State, stopped, starting, ready}

-- A process is the token of its task. `process_lock` is whether a call of `start` holds it; `stop` does not take it. `spawned` are the tokens of the tasks that were spawned, and
-- `cancelled` the tokens that were cancelled.
pub record Egress : Type 0 where
  pub id : EgressId
  pub ingress_id : IngressId
  pub target_addr : SocketAddr
  pub process : Option ℕ
  pub process_lock : Bool
  pub state : State
  pub spawned : List ℕ
  pub cancelled : List ℕ

unfoldable pub new : EgressId → IngressId → SocketAddr → Egress
new id ingress_id target_addr = record {
  id = id;
  ingress_id = ingress_id;
  target_addr = target_addr;
  process = none;
  process_lock = false;
  state = stopped;
  spawned = [];
  cancelled = [];
}

-- What `start` does while it holds the lock. The token is a new one.
unfoldable pub start_locked : ℕ → Egress → Result (Unit {0}) × Egress
start_locked token e = elim e.process [
  | some _ ↦ (err egress_already_started, e)
  | none ↦ (ok tt, record e { state = starting; process = some token; spawned = token ∷ e.spawned })
]

unfoldable pub set_lock : Bool → Egress → Egress
set_lock held e = record e { process_lock = held }

-- The whole of `start`, once it has the lock; the end of the method releases it.
unfoldable pub start : ℕ → Egress → Result (Unit {0}) × Egress
unfolding start_locked set_lock
start token e =
    let (result, e') = start_locked token (set_lock true e) in (result, set_lock false e')

-- What the task publishes.
unfoldable pub publish : Option State → Egress → Egress
publish none e = e
publish (some s) e = record e { state = s }

-- `take()`, and the cancelling of the token.
unfoldable pub stop_take : Egress → Result ℕ × Egress
stop_take e = elim e.process [
  | none ↦ (err egress_not_started, e)
  | some token ↦ (ok token, record e { process = none; cancelled = token ∷ e.cancelled })
]

-- After the await, whose result is an error if the task panicked.
unfoldable pub stop_finish : Result (Unit {0}) → Egress → Result (Unit {0}) × Egress
stop_finish (ok _) e = (ok tt, record e { state = stopped })
stop_finish (err j) e = (err j, e)
stop_finish panic e = (panic, e)

unfoldable pub finish_taken : Result ℕ → Result (Unit {0}) → Egress → Result (Unit {0}) × Egress
unfolding stop_finish
finish_taken (ok _) joined e = stop_finish joined e
finish_taken (err f) joined e = (err f, e)
finish_taken panic joined e = (panic, e)

-- The whole of `stop`, with nothing in between.
unfoldable pub stop : Result (Unit {0}) → Egress → Result (Unit {0}) × Egress
unfolding stop_take finish_taken
stop joined e = let (taken, e') = stop_take e in finish_taken taken joined e'
