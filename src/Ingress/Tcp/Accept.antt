-- ===== src/Ingress/Tcp/Accept.antt =====
-- siffleux/src/server/ingress/tcp_ingress.rs: `handle_listener`, the accept loop, whose result its task unwraps.
use siffleux.Prelude.{
  ℕ, suc, ◌≡◌, refl, Bool, true, false, List, [], ◌∷◌, ◌++◌, map, length, ap, if◌then◌else◌,
}
use siffleux.Error.{Error, Result, ok, err, panic}
use siffleux.Frames.{SocketAddr}

-- What `accept` gives: a connection, with what its `peer_addr` returns, or an error.
pub data AcceptEvent : Type 0 where
  accepted : Result SocketAddr → AcceptEvent
  accept_failed : AcceptEvent

-- How the loop goes on, and whether the connection was given to a task of its own.
pub data AcceptTurn : Type 0 where
  goes_on : AcceptTurn
  returns : Result (Unit {0}) → AcceptTurn

-- `peer_addr()?` stands in the fields of a `debug!`, which are computed only if that level is logged.
unfoldable pub accept_turn : Bool → AcceptEvent → AcceptTurn
accept_turn debug_enabled (accepted (ok addr)) = goes_on
accept_turn debug_enabled (accepted (err e)) = if debug_enabled then returns (err e) else goes_on
accept_turn debug_enabled (accepted panic) = if debug_enabled then returns panic else goes_on
accept_turn debug_enabled accept_failed = returns (ok tt)

pub data LoopEnd : Type 0 where
  still_runs : LoopEnd
  ended : LoopEnd
  panicked : LoopEnd

-- The connections that got a task of their own, whether the token of the listener was cancelled, and the end of the
-- task that `start` spawned.
pub record Accepting : Type 0 where
  pub handled : ℕ
  pub cancelled : Bool
  pub end : LoopEnd

-- `self_clone.handle_listener(tcp_listener).await.unwrap()`: the token is cancelled behind the loop only.
unfoldable pub task_end : Result (Unit {0}) → Accepting
task_end (ok _) = record { handled = 0; cancelled = true; end = ended }
task_end (err e) = record { handled = 0; cancelled = false; end = panicked }
task_end panic = record { handled = 0; cancelled = false; end = panicked }

unfoldable pub handle_listener : Bool → List AcceptEvent → Accepting
unfolding accept_turn task_end
handle_listener debug_enabled [] = record { handled = 0; cancelled = false; end = still_runs }
handle_listener debug_enabled (e ∷ events) =
    let rest = handle_listener debug_enabled events in
    elim (accept_turn debug_enabled e) [
      | goes_on ↦ record rest { handled = suc rest.handled }
      | returns r ↦ task_end r
    ]

handles_all :
    (peers : List (Result SocketAddr))
    → handle_listener false (map accepted peers)
      ≡ record { handled = length peers; cancelled = false; end = still_runs }
unfolding handle_listener accept_turn
handles_all [] = refl
handles_all (ok a ∷ peers) =
    ap (λ (r : Accepting). record r { handled = suc r.handled }) (handles_all peers)
handles_all (err e ∷ peers) =
    ap (λ (r : Accepting). record r { handled = suc r.handled }) (handles_all peers)
handles_all (panic ∷ peers) =
    ap (λ (r : Accepting). record r { handled = suc r.handled }) (handles_all peers)

stops_at :
    (before : List SocketAddr) (e : Error) (after : List AcceptEvent)
    → handle_listener true (map (λ a. accepted (ok a)) before ++ (accepted (err e) ∷ after))
      ≡ record { handled = length before; cancelled = false; end = panicked }
unfolding handle_listener accept_turn
stops_at [] e after = refl
stops_at (a ∷ before) e after =
    ap (λ (r : Accepting). record r { handled = suc r.handled }) (stops_at before e after)

-- While debug messages are logged, one connection whose peer is gone before its address is asked for ends the
-- accept loop by a panic: the connections before it are given to tasks, no later one is, and the token of the
-- listener is not cancelled. While they are not logged, every connection that is accepted is given to a task,
-- whatever its address is, and the loop still runs.
pub dead_peer_kills :
    (before : List SocketAddr) (e : Error) (after : List AcceptEvent)
    (peers : List (Result SocketAddr))
    → (handle_listener true (map (λ a. accepted (ok a)) before ++ (accepted (err e) ∷ after))
        ≡ record { handled = length before; cancelled = false; end = panicked })
      × (handle_listener false (map accepted peers)
          ≡ record { handled = length peers; cancelled = false; end = still_runs })
dead_peer_kills before e after peers = (stops_at before e after, handles_all peers)
