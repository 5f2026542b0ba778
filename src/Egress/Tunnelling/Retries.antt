-- ===== src/Egress/Tunnelling/Retries.antt =====
-- The retries of the tunnel's task: how long it waits, and when it ends.
use siffleux.Prelude.{
  ℕ, zero, suc, ◌+◌, ◌*◌, ◌^◌, ◌≤◌, ◌<◌, ◌≡◌, refl, Bool, true, List, [], ◌∷◌, ◌++◌, arith, min,
  ◌∙◌, ap,
}
use siffleux.Error.{ok}
use siffleux.Egress.Backoff.{next_retry, delay-doubles, delay_overflows, checked-lt}
use siffleux.Egress.Tunnelling.{
  connecting, waiting, tunnelling, finished, crashed, TaskEvent, refused, slept, tunnel_closed,
  cancelled, task_run,
}

-- `n` failed attempts, each with its wait.
pub failures : ℕ → List TaskEvent
failures zero = []
failures (suc n) = refused ∷ slept ∷ failures n

next_retry-lt : (c : Bool) (r : ℕ) → r < 58 → next_retry c r ≡ ok (r + 1)
unfolding next_retry
next_retry-lt c r h = checked-lt c 32 (r + 1) (omega arith)

one_failure :
    (c : Bool) (r : ℕ) (events : List TaskEvent)
    → r ≤ 57
    → task_run c (connecting r) (refused ∷ slept ∷ events) ≡ task_run c (connecting (r + 1)) events
unfolding task_run
one_failure c r events h = rw (delay-doubles c r h) (rw (next_retry-lt c r (omega arith)))

after_failures :
    (c : Bool) (n r : ℕ) (events : List TaskEvent)
    → r + n ≤ 58
    → task_run c (connecting r) (failures n ++ events) ≡ task_run c (connecting (r + n)) events
unfolding failures
after_failures c zero r events h = ap (λ k. task_run c (connecting k) events) (omega arith)
after_failures c (suc n) r events h =
    one_failure c r (failures n ++ events) (omega arith)
    ∙ after_failures c n (r + 1) events (omega arith)
    ∙ ap (λ k. task_run c (connecting k) events) (omega arith)

finished_stays : (c : Bool) (events : List TaskEvent) → task_run c finished events ≡ finished
unfolding task_run
finished_stays c [] = refl
finished_stays c (e ∷ events) = finished_stays c events

crashed_stays : (c : Bool) (events : List TaskEvent) → task_run c crashed events ≡ crashed
unfolding task_run
crashed_stays c [] = refl
crashed_stays c (e ∷ events) = crashed_stays c events

last_refusal :
    (c : Bool) (n : ℕ)
    → n ≤ 57
    → task_run c (connecting n) (refused ∷ []) ≡ waiting n (min (100 * 2 ^ n) 30000)
unfolding task_run
last_refusal c n h = rw (delay-doubles c n h)

closed_restarts :
    (c : Bool) (events : List TaskEvent)
    → task_run c tunnelling (tunnel_closed ∷ events) ≡ task_run c (connecting 0) events
unfolding task_run
closed_restarts c events = refl

-- A tunnel that is lost is sought again at once, and the waits start from 100 milliseconds anew: after `n`
-- failures from there, with `n` at most 57, the next wait is 100 milliseconds doubled `n` times, or 30
-- seconds if that is less.
pub lost_tunnel_retries :
    (c : Bool) (n : ℕ)
    → n ≤ 57
    → task_run c tunnelling (tunnel_closed ∷ (failures n ++ (refused ∷ [])))
      ≡ waiting n (min (100 * 2 ^ n) 30000)
lost_tunnel_retries c n h =
    closed_restarts c (failures n ++ (refused ∷ []))
    ∙ after_failures c n 0 (refused ∷ []) (omega arith)
    ∙ ap (λ k. task_run c (connecting k) (refused ∷ [])) (omega arith)
    ∙ last_refusal c n h

-- A cancelled task ends, whether it waits or is in a tunnel, and then nothing wakes it.
pub cancelled-finished :
    (c : Bool) (retry delay : ℕ) (events : List TaskEvent)
    → (task_run c (waiting retry delay) (cancelled ∷ events) ≡ finished)
      × (task_run c tunnelling (cancelled ∷ events) ≡ finished)
unfolding task_run
cancelled-finished c retry delay events = (finished_stays c events, finished_stays c events)

crash-58 :
    (events : List TaskEvent) → task_run true (connecting (0 + 58)) (refused ∷ events) ≡ crashed
unfolding task_run
crash-58 events = rw ((delay_overflows 0).0) (crashed_stays true events)

-- In a build with overflow checks the 59th failure in a row ends the task by a panic, for good.
pub failures-crash :
    (events : List TaskEvent)
    → task_run true (connecting 0) (failures 58 ++ (refused ∷ events)) ≡ crashed
failures-crash events = after_failures true 58 0 (refused ∷ events) (omega arith) ∙ crash-58 events
