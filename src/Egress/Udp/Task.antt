-- ===== src/Egress/Udp/Task.antt =====
-- siffleux/src/client/egress/udp_egress.rs: the task of a UDP egress, against the task that both egresses share.
use siffleux.Prelude.{ℕ, ◌≡◌, refl, ap, ◌∙◌, Bool, List, [], ◌∷◌}
use siffleux.Error.{Result, ok, err, panic}
use siffleux.Tunnel.{Tunnel}
use siffleux.Egress.Tunnelling
use siffleux.Egress.Tunnelling.{
  TaskEvent, Phase, connecting, waiting, tunnelling, finished, crashed, task_turn, task_run,
  wait_or_crash, retry_or_crash,
}
use siffleux.Egress.Sockets.{addr_eq, Sockets, process_datagram}
use siffleux.Egress.Udp.{
  UdpTask, UdpEvent, UdpTurn, connect_result, slept, datagram_received, origin_expired,
  tunnel_closed, process_cancelled, udp_turn, udp_run,
}

abbrev pub connect_event : Result Tunnel → TaskEvent
connect_event (ok tunnel) = Tunnelling.connected
connect_event (err e) = Tunnelling.refused
connect_event panic = Tunnelling.connect_panics

abbrev pub traffic_event : Result Sockets → TaskEvent
traffic_event (ok sockets) = Tunnelling.traffic
traffic_event (err e) = Tunnelling.traffic_panics
traffic_event panic = Tunnelling.traffic_panics

abbrev pub datagram_event : Sockets → Result (List ℕ) → TaskEvent
datagram_event sockets (ok bytes) = traffic_event (process_datagram bytes sockets)
datagram_event sockets (err e) = Tunnelling.traffic
datagram_event sockets panic = Tunnelling.traffic_panics

-- What an event is to the shared task, which does not look at the traffic.
abbrev pub seen : Sockets → UdpEvent → TaskEvent
seen sockets (connect_result r) = connect_event r
seen sockets slept = Tunnelling.slept
seen sockets (datagram_received r) = datagram_event sockets r
seen sockets (origin_expired origin) = Tunnelling.traffic
seen sockets tunnel_closed = Tunnelling.tunnel_closed
seen sockets process_cancelled = Tunnelling.cancelled

-- The events of a run, as the shared task sees them.
pub all_seen : Bool → UdpTask → List UdpEvent → List TaskEvent
all_seen c task [] = []
all_seen c task (e ∷ events) =
    seen task.sockets e ∷ all_seen c (udp_turn c task.phase task.sockets e).task events

-- One turn is the shared task's: the phase, what is published, and whether the tunnel is closed.
abbrev pub SameTurn : UdpTurn → Tunnelling.TaskTurn → Type 0
SameTurn concrete shared =
    (concrete.task.phase ≡ shared.phase)
    × (concrete.publishes ≡ shared.publishes)
    × (concrete.closes_tunnel ≡ shared.closes_tunnel)

datagram-SameTurn :
    (c : Bool) (phase : Phase) (sockets : Sockets) (bytes : List ℕ) (r : Result Sockets)
    → process_datagram bytes sockets ≡ r
    → SameTurn
        (udp_turn c phase sockets (datagram_received (ok bytes)))
        (task_turn c phase (traffic_event r))
unfolding udp_turn task_turn
datagram-SameTurn c (connecting retry) sockets bytes (ok s) h = (refl, refl, refl)
datagram-SameTurn c (connecting retry) sockets bytes (err x) h = (refl, refl, refl)
datagram-SameTurn c (connecting retry) sockets bytes panic h = (refl, refl, refl)
datagram-SameTurn c (waiting retry delay) sockets bytes (ok s) h = (refl, refl, refl)
datagram-SameTurn c (waiting retry delay) sockets bytes (err x) h = (refl, refl, refl)
datagram-SameTurn c (waiting retry delay) sockets bytes panic h = (refl, refl, refl)
datagram-SameTurn c tunnelling sockets bytes (ok s) h = (rw h refl, refl, refl)
datagram-SameTurn c tunnelling sockets bytes (err x) h = (rw h refl, refl, refl)
datagram-SameTurn c tunnelling sockets bytes panic h = (rw h refl, refl, refl)
datagram-SameTurn c finished sockets bytes r h = (refl, refl, refl)
datagram-SameTurn c crashed sockets bytes r h = (refl, refl, refl)

turn-SameTurn :
    (c : Bool) (phase : Phase) (sockets : Sockets) (e : UdpEvent)
    → SameTurn (udp_turn c phase sockets e) (task_turn c phase (seen sockets e))
unfolding udp_turn task_turn
turn-SameTurn c phase sockets (datagram_received (ok bytes)) =
    datagram-SameTurn c phase sockets bytes (process_datagram bytes sockets) refl
turn-SameTurn c (connecting retry) sockets (connect_result (ok t)) = (refl, refl, refl)
turn-SameTurn c (connecting retry) sockets (connect_result (err x)) = (refl, refl, refl)
turn-SameTurn c (connecting retry) sockets (connect_result panic) = (refl, refl, refl)
turn-SameTurn c (connecting retry) sockets slept = (refl, refl, refl)
turn-SameTurn c (connecting retry) sockets (datagram_received (err x)) = (refl, refl, refl)
turn-SameTurn c (connecting retry) sockets (datagram_received panic) = (refl, refl, refl)
turn-SameTurn c (connecting retry) sockets (origin_expired o) = (refl, refl, refl)
turn-SameTurn c (connecting retry) sockets tunnel_closed = (refl, refl, refl)
turn-SameTurn c (connecting retry) sockets process_cancelled = (refl, refl, refl)
turn-SameTurn c (waiting retry delay) sockets (connect_result (ok t)) = (refl, refl, refl)
turn-SameTurn c (waiting retry delay) sockets (connect_result (err x)) = (refl, refl, refl)
turn-SameTurn c (waiting retry delay) sockets (connect_result panic) = (refl, refl, refl)
turn-SameTurn c (waiting retry delay) sockets slept = (refl, refl, refl)
turn-SameTurn c (waiting retry delay) sockets (datagram_received (err x)) = (refl, refl, refl)
turn-SameTurn c (waiting retry delay) sockets (datagram_received panic) = (refl, refl, refl)
turn-SameTurn c (waiting retry delay) sockets (origin_expired o) = (refl, refl, refl)
turn-SameTurn c (waiting retry delay) sockets tunnel_closed = (refl, refl, refl)
turn-SameTurn c (waiting retry delay) sockets process_cancelled = (refl, refl, refl)
turn-SameTurn c tunnelling sockets (connect_result (ok t)) = (refl, refl, refl)
turn-SameTurn c tunnelling sockets (connect_result (err x)) = (refl, refl, refl)
turn-SameTurn c tunnelling sockets (connect_result panic) = (refl, refl, refl)
turn-SameTurn c tunnelling sockets slept = (refl, refl, refl)
turn-SameTurn c tunnelling sockets (datagram_received (err x)) = (refl, refl, refl)
turn-SameTurn c tunnelling sockets (datagram_received panic) = (refl, refl, refl)
turn-SameTurn c tunnelling sockets (origin_expired o) = (refl, refl, refl)
turn-SameTurn c tunnelling sockets tunnel_closed = (refl, refl, refl)
turn-SameTurn c tunnelling sockets process_cancelled = (refl, refl, refl)
turn-SameTurn c finished sockets e = (refl, refl, refl)
turn-SameTurn c crashed sockets e = (refl, refl, refl)

-- The task of a UDP egress, whatever its events bring, goes through the phases of the task that both egresses share: its sockets
-- and their traffic make no other difference than a panic at a datagram.
pub phase-udp_run :
    (c : Bool) (task : UdpTask) (events : List UdpEvent)
    → (udp_run c task events).phase ≡ task_run c task.phase (all_seen c task events)
unfolding udp_run task_run all_seen
phase-udp_run c task [] = refl
phase-udp_run c task (e ∷ events) =
    let turn = udp_turn c task.phase task.sockets e in
    phase-udp_run c turn.task events
    ∙ ap (λ p. task_run c p (all_seen c turn.task events))
        (turn-SameTurn c task.phase task.sockets e).0
