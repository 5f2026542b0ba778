-- ===== src/Egress/Lifecycle/Calls.antt =====
-- client/egress/tcp_egress.rs and client/egress/udp_egress.rs: calls of `start` and `stop` that overlap. A call of `start`
-- waits for the lock; one of `stop` takes the process without the lock, and then awaits the old task.
use siffleux.Prelude.{ℕ, ◌≡◌, true, false, some, List, ◌∷◌}
use siffleux.Error.{Result, ok}
use siffleux.Egress.Tunnelling.{State}
use siffleux.Egress.Lifecycle.{Egress, start_locked, set_lock, stop_take, stop_finish, publish}

-- An egress, and the tokens of the processes whose end a `stop` awaits.
pub record Calls : Type 0 where
  pub egress : Egress
  pub awaited : List ℕ

pub data CallStep : Calls → Calls → Type 0 where
  locks :
      (s : Calls)
      → s.egress.process_lock ≡ false
      → CallStep s (record s { egress = set_lock true s.egress })
  starts :
      (s : Calls) (token : ℕ)
      → s.egress.process_lock ≡ true
      → CallStep s (record s { egress = set_lock false (start_locked token s.egress).1 })
  takes :
      (s : Calls) (token : ℕ)
      → (stop_take s.egress).0 ≡ ok token
      → CallStep s (record { egress = (stop_take s.egress).1; awaited = token ∷ s.awaited })
  finishes :
      (s : Calls) (token : ℕ) (rest : List ℕ) (joined : Result (Unit {0}))
      → s.awaited ≡ token ∷ rest
      → CallStep s (record { egress = (stop_finish joined s.egress).1; awaited = rest })
  publishes :
      (s : Calls) (state : State) → CallStep s (record s { egress = publish (some state) s.egress })

pub data CallReach (s : Calls) : Calls → Type 0 where
  here : CallReach s s
  next : {u v : Calls} → CallReach s u → CallStep u v → CallReach s v
