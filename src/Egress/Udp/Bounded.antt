-- ===== src/Egress/Udp/Bounded.antt =====
-- siffleux/src/client/egress/udp_egress.rs: how much the channels of a UDP egress hold.
use siffleux.Prelude.{ℕ, ◌≡◌, refl, Bool, List, [], ◌∷◌, arith, lookup, lookup-remove}
use siffleux.Error.{Result, ok, err, panic}
use siffleux.Frames.{SocketAddr, v4}
use siffleux.Egress.Tunnelling.{Phase, connecting, waiting, tunnelling, finished, crashed}
use siffleux.Egress.Sockets.{Sockets, addr_eq, process_datagram, expire}
use siffleux.Egress.Sockets.Flows.{IsBounded, process_datagram-IsBounded}
use siffleux.Egress.Udp.{
  UdpTask, UdpEvent, connect_result, slept, datagram_received, origin_expired, tunnel_closed,
  process_cancelled, no_sockets, connect_turn, processed, datagram_turn, udp_turn, udp_run,
}

no_sockets-IsBounded : IsBounded no_sockets
unfolding lookup
no_sockets-IsBounded = record { at = λ o c h. cc }

expire-IsBounded : (o : SocketAddr) (s : Sockets) → IsBounded s → IsBounded (expire o s)
unfolding expire
expire-IsBounded o s h = record {
  at = λ j c f. ground (arith, lookup-remove o j s.udp_sockets, h.at j c);
}

processed-IsBounded :
    (bytes : List ℕ) (s : Sockets) (r : Result Sockets)
    → process_datagram bytes s ≡ r
    → IsBounded s
    → IsBounded (processed r s).sockets
unfolding processed
processed-IsBounded bytes s (ok s') e h = (process_datagram-IsBounded bytes (v4 [] 0) s s' h e).0
processed-IsBounded bytes s (err x) e h = h
processed-IsBounded bytes s panic e h = h

turn-IsBounded :
    (c : Bool) (phase : Phase) (s : Sockets) (e : UdpEvent)
    → IsBounded s
    → IsBounded (udp_turn c phase s e).task.sockets
unfolding udp_turn connect_turn datagram_turn
turn-IsBounded c (connecting retry) s (connect_result (ok t)) h = no_sockets-IsBounded
turn-IsBounded c (connecting retry) s (connect_result (err x)) h = h
turn-IsBounded c (connecting retry) s (connect_result panic) h = h
turn-IsBounded c (connecting retry) s e h = h
turn-IsBounded c (waiting retry delay) s slept h = h
turn-IsBounded c (waiting retry delay) s process_cancelled h = h
turn-IsBounded c (waiting retry delay) s e h = h
turn-IsBounded c tunnelling s (datagram_received (ok bytes)) h =
    processed-IsBounded bytes s (process_datagram bytes s) refl h
turn-IsBounded c tunnelling s (datagram_received (err x)) h = h
turn-IsBounded c tunnelling s (datagram_received panic) h = h
turn-IsBounded c tunnelling s (origin_expired o) h = expire-IsBounded o s h
turn-IsBounded c tunnelling s tunnel_closed h = no_sockets-IsBounded
turn-IsBounded c tunnelling s process_cancelled h = no_sockets-IsBounded
turn-IsBounded c tunnelling s e h = h
turn-IsBounded c finished s e h = h
turn-IsBounded c crashed s e h = h

-- However long the task of a UDP egress runs, over however many tunnels: if no origin's channel holds more than 128 datagrams
-- at the start, none ever does.
pub udp_run-IsBounded :
    (c : Bool) (task : UdpTask) (events : List UdpEvent)
    → IsBounded task.sockets
    → IsBounded (udp_run c task events).sockets
unfolding udp_run
udp_run-IsBounded c task [] h = h
udp_run-IsBounded c task (e ∷ events) h =
    udp_run-IsBounded c (udp_turn c task.phase task.sockets e).task events
      (turn-IsBounded c task.phase task.sockets e h)
