-- ===== src/Egress/Udp.antt =====
-- siffleux/src/client/egress/udp_egress.rs: the UDP egress. Its life cycle is that of a TCP egress, word for word; its
-- task has the sockets of the origins beside its phase, for as long as a tunnel lasts.
pub mod Task
pub mod Bounded
use siffleux.Prelude.{◌∷◌, true, false, List, ℕ, Bool, Option, none, some, []}
use siffleux.Error.{Result, ok, err, panic}
use siffleux.Ids.Names.{EgressId, IngressId}
use siffleux.Frames.{SocketAddr}
use siffleux.Tunnel.{Tunnel}
use siffleux.Egress.Backoff.{reconnect_delay, next_retry}
use siffleux.Egress.Tunnelling.{
  State, ready, Phase, connecting, waiting, tunnelling, finished, crashed, wait_or_crash,
  retry_or_crash,
}
use siffleux.Egress.Lifecycle
use siffleux.Egress.Lifecycle.{Egress}
use siffleux.Egress.Sockets.{Sockets, process_datagram, expire}

unfoldable pub new : EgressId → IngressId → SocketAddr → Egress
unfolding Lifecycle.new
new id ingress_id target_addr = Lifecycle.new id ingress_id target_addr

unfoldable pub start : ℕ → Egress → Result (Unit {0}) × Egress
unfolding Lifecycle.start
start token e = Lifecycle.start token e

unfoldable pub stop : Result (Unit {0}) → Egress → Result (Unit {0}) × Egress
unfolding Lifecycle.stop
stop joined e = Lifecycle.stop joined e

-- `sockets` is `udp_sockets` of the tunnel that is there.
pub record UdpTask : Type 0 where
  pub phase : Phase
  pub sockets : Sockets

-- What the task waits for: the result of connecting, the end of the wait, and what ends the `select!` over a
-- tunnel.
pub data UdpEvent : Type 0 where
  connect_result : Result Tunnel → UdpEvent
  slept : UdpEvent
  datagram_received : Result (List ℕ) → UdpEvent
  origin_expired : SocketAddr → UdpEvent
  tunnel_closed : UdpEvent
  process_cancelled : UdpEvent

-- The task, the state that it publishes, and whether it closes the tunnel.
pub record UdpTurn : Type 0 where
  pub task : UdpTask
  pub publishes : Option State
  pub closes_tunnel : Bool

abbrev pub no_sockets : Sockets
no_sockets = record { udp_sockets = []; spawned = [] }

abbrev pub silent : UdpTask → UdpTurn
silent task = record { task = task; publishes = none; closes_tunnel = false }

-- `connect` has returned.
unfoldable pub connect_turn : Bool → ℕ → Result Tunnel → Sockets → UdpTurn
unfolding wait_or_crash
connect_turn overflow_checks retry (ok tunnel) sockets = record {
  task = record { phase = tunnelling; sockets = no_sockets };
  publishes = some ready;
  closes_tunnel = false;
}
connect_turn overflow_checks retry (err e) sockets = silent (record {
  phase = wait_or_crash retry (reconnect_delay overflow_checks retry);
  sockets = sockets;
})
connect_turn overflow_checks retry panic sockets =
    silent (record { phase = crashed; sockets = sockets })

unfoldable pub processed : Result Sockets → Sockets → UdpTask
processed (ok sockets') sockets = record { phase = tunnelling; sockets = sockets' }
processed (err e) sockets = record { phase = crashed; sockets = sockets }
processed panic sockets = record { phase = crashed; sockets = sockets }

-- `read_datagram` has returned; an error of it is only logged.
unfoldable pub datagram_turn : Result (List ℕ) → Sockets → UdpTask
unfolding processed
datagram_turn (ok bytes) sockets = processed (process_datagram bytes sockets) sockets
datagram_turn (err e) sockets = record { phase = tunnelling; sockets = sockets }
datagram_turn panic sockets = record { phase = crashed; sockets = sockets }

-- An event that the phase does not wait for changes nothing.
unfoldable pub udp_turn : Bool → Phase → Sockets → UdpEvent → UdpTurn
unfolding connect_turn datagram_turn retry_or_crash
udp_turn overflow_checks (connecting retry) sockets (connect_result result) =
    connect_turn overflow_checks retry result sockets
udp_turn overflow_checks (connecting retry) sockets e =
    silent (record { phase = connecting retry; sockets = sockets })
udp_turn overflow_checks (waiting retry delay) sockets slept =
    silent (record { phase = retry_or_crash (next_retry overflow_checks retry); sockets = sockets })
udp_turn overflow_checks (waiting retry delay) sockets process_cancelled =
    silent (record { phase = finished; sockets = sockets })
udp_turn overflow_checks (waiting retry delay) sockets e =
    silent (record { phase = waiting retry delay; sockets = sockets })
udp_turn overflow_checks tunnelling sockets (datagram_received result) =
    silent (datagram_turn result sockets)
udp_turn overflow_checks tunnelling sockets (origin_expired origin) =
    silent (record { phase = tunnelling; sockets = expire origin sockets })
udp_turn overflow_checks tunnelling sockets tunnel_closed =
    silent (record { phase = connecting 0; sockets = no_sockets })
udp_turn overflow_checks tunnelling sockets process_cancelled = record {
  task = record { phase = finished; sockets = no_sockets };
  publishes = none;
  closes_tunnel = true;
}
udp_turn overflow_checks tunnelling sockets e =
    silent (record { phase = tunnelling; sockets = sockets })
udp_turn overflow_checks finished sockets e =
    silent (record { phase = finished; sockets = sockets })
udp_turn overflow_checks crashed sockets e = silent (record { phase = crashed; sockets = sockets })

unfoldable pub udp_run : Bool → UdpTask → List UdpEvent → UdpTask
unfolding udp_turn
udp_run overflow_checks task [] = task
udp_run overflow_checks task (e ∷ events) =
    udp_run overflow_checks (udp_turn overflow_checks task.phase task.sockets e).task events
