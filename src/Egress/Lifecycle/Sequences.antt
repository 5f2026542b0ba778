-- ===== src/Egress/Lifecycle/Sequences.antt =====
-- client/egress/tcp_egress.rs and client/egress/udp_egress.rs: sequences of starts and stops.
use siffleux.Prelude.{ℕ, ◌≡◌, none, some, ◌∷◌, arith}
use siffleux.Error.{Error, ok, err, egress_already_started, egress_not_started}
use siffleux.Egress.Tunnelling.{State, stopped, ready}
use siffleux.Egress.Lifecycle.{Egress, start, stop, publish}

-- An egress without a process starts and spawns one task; while it has a process a second start is refused
-- and changes nothing, whatever the task has published; stopping cancels the task's token, publishes
-- `stopped` once the task is through, and leaves no process, so that a second stop is refused.
pub stop-publish-start :
    (e : Egress) (token other : ℕ)
    → e.process ≡ none
    → let started = publish (some ready) (start token e).1 in
      let ended = (stop (ok tt) started).1 in
      ((start token e).0 ≡ ok tt)
      × (started.spawned ≡ token ∷ e.spawned)
      × (start other started ≡ (err egress_already_started, started))
      × ((stop (ok tt) started).0 ≡ ok tt)
      × (ended.cancelled ≡ token ∷ e.cancelled)
      × (ended.state ≡ stopped)
      × (stop (ok tt) ended ≡ (err egress_not_started, ended))
unfolding start stop publish
stop-publish-start e token other h = (
  ground arith,
  ground arith,
  ground arith,
  ground arith,
  ground arith,
  ground arith,
  ground arith,
)

-- When the task has panicked, stopping returns the error of the join and leaves the state that the task
-- published last, with no process behind it.
pub stop_after_panic :
    (e : Egress) (token : ℕ) (s : State) (j : Error)
    → e.process ≡ some token
    → ((stop (err j) (publish (some s) e)).0 ≡ err j)
      × ((stop (err j) (publish (some s) e)).1.state ≡ s)
      × ((stop (err j) (publish (some s) e)).1.process ≡ none)
unfolding stop publish
stop_after_panic e token s j h = (ground arith, ground arith, ground arith)
