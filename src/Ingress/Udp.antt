-- ===== src/Ingress/Udp.antt =====
-- siffleux/src/server/ingress/udp_ingress.rs: the UDP ingress.
pub mod Traffic
pub mod Lifecycle
use siffleux.Prelude.{
  ℕ, Bool, true, false, Option, none, some, List, [], ◌∷◌, ◌++◌, ◌≡◌, ◌==◌, refl, arith,
  if◌then◌else◌,
}
use siffleux.Error.{
  Error, Result, unwrap, ◌>>=◌, ok, err, panic, ingress_already_listening, ingress_not_listening,
  closed_tunnel,
}
use siffleux.Ids.Names.{IngressId, AuthKey}
use siffleux.Frames.{SocketAddr, to_datagram, extract_origin_socket_addr_from_datagram}
use siffleux.Tunnel.{Tunnel}
use siffleux.Ingress.Trait.{Ingress, Bound}
use siffleux.Ingress.Pool
use siffleux.Ingress.Pool.{Pool}

-- `udp_socket` is the socket with its cancellation token; `cancelled` are the tokens that were
-- cancelled, `readers` the tasks that read tunnels, each with its socket and token, `loops` the tasks
-- that read a socket, and `watchers` those that wait for a tunnel's end.
pub record UdpIngress : Type 0 where
  pub id : IngressId
  pub auth_key : AuthKey
  pub socket_addr : SocketAddr
  pub pool : Pool
  pub udp_socket : Option (ℕ × ℕ)
  pub cancelled : List ℕ
  pub readers : List (Tunnel × ℕ × ℕ)
  pub loops : List (ℕ × ℕ)
  pub watchers : List Tunnel

unfoldable pub new : IngressId → AuthKey → SocketAddr → UdpIngress
new id auth_key socket_addr = record {
  id = id;
  auth_key = auth_key;
  socket_addr = socket_addr;
  pool = Pool.empty;
  udp_socket = none;
  cancelled = [];
  readers = [];
  loops = [];
  watchers = [];
}

unfoldable pub assign_tunnel : Tunnel → UdpIngress → Result (Unit {0}) × UdpIngress
unfolding Pool.push
assign_tunnel tunnel s = elim s.udp_socket [
  | none ↦ (err ingress_not_listening, s)
  | some (socket, token) ↦ (
    ok tt,
    record s {
      readers = (tunnel, socket, token) ∷ s.readers;
      watchers = tunnel ∷ s.watchers;
      pool = Pool.push tunnel s.pool;
    },
  )
]

-- The token is a new one, here named by the socket's number; `local_addr().unwrap()` comes after the
-- socket is stored.
unfoldable pub bind : Bound → UdpIngress → Result (Unit {0}) × UdpIngress
bind (err e) s = (err e, s)
bind panic s = (panic, s)
bind (ok (socket, ok addr)) s =
    (ok tt, record s { udp_socket = some (socket, socket); loops = (socket, socket) ∷ s.loops })
bind (ok (socket, err e)) s = (panic, record s { udp_socket = some (socket, socket) })
bind (ok (socket, panic)) s = (panic, record s { udp_socket = some (socket, socket) })

unfoldable pub start : Bound → UdpIngress → Result (Unit {0}) × UdpIngress
unfolding bind
start bound s = elim s.udp_socket [
  | some _ ↦ (err ingress_already_listening, s)
  | none ↦ bind bound s
]

unfoldable pub stop : UdpIngress → Result (Unit {0}) × UdpIngress
stop s = elim s.udp_socket [
  | some (socket, token) ↦ (ok tt, record s { udp_socket = none; cancelled = token ∷ s.cancelled })
  | none ↦ (err ingress_not_listening, s)
]

-- `local_addr` is what the operating system says of a socket; its result is unwrapped.
unfoldable pub get_socket_addr : (ℕ → Result SocketAddr) → UdpIngress → Result (Option SocketAddr)
get_socket_addr local_addr s = elim s.udp_socket [
  | some (socket, _) ↦ unwrap (local_addr socket) >>= λ addr. ok (some addr)
  | none ↦ ok none
]

-- What ends a `select!` of `handle_socket_to_tunnel`: the sender's address and the bytes that were
-- put at the front of the buffer, an error, or the token.
pub data SocketEvent : Type 0 where
  received : SocketAddr → List ℕ → ℕ → SocketEvent
  failed : SocketEvent
  token_cancelled : SocketEvent

-- Whether the loop goes on, the ingress, and the datagram that was given to a tunnel.
pub record Forwarded : Type 0 where
  pub goes_on : Result Bool
  pub ingress : UdpIngress
  pub sent : Option (Tunnel × List ℕ)

unfoldable pub send_to_tunnel : Result (List ℕ) → Tunnel → UdpIngress → Forwarded
send_to_tunnel (ok datagram) tunnel s = record {
  goes_on = ok true;
  ingress = s;
  sent = some (tunnel, datagram);
}
send_to_tunnel (err e) tunnel s = record { goes_on = err e; ingress = s; sent = none }
send_to_tunnel panic tunnel s = record { goes_on = panic; ingress = s; sent = none }

unfoldable pub forward : SocketAddr → List ℕ → ℕ → Result (Option Tunnel) → UdpIngress → Forwarded
unfolding send_to_tunnel
forward addr buffer len (ok (some tunnel)) s = send_to_tunnel (to_datagram addr buffer len) tunnel s
forward addr buffer len (ok none) s = record { goes_on = ok true; ingress = s; sent = none }
forward addr buffer len (err e) s = record { goes_on = err e; ingress = s; sent = none }
forward addr buffer len panic s = record { goes_on = panic; ingress = s; sent = none }

-- One turn of `handle_socket_to_tunnel`. An error of `send_datagram` is only logged.
unfoldable pub socket_turn : SocketEvent → UdpIngress → Forwarded
unfolding forward Pool.get_tunnel_to_connect
socket_turn (received addr buffer len) s =
    let (picked, pool') = Pool.get_tunnel_to_connect s.pool in
    forward addr buffer len picked (record s { pool = pool' })
socket_turn failed s = record { goes_on = ok false; ingress = s; sent = none }
socket_turn token_cancelled s = record { goes_on = ok false; ingress = s; sent = none }

-- What ends a `select!` of the task that reads a tunnel.
pub data TunnelEvent : Type 0 where
  datagram : List ℕ → TunnelEvent
  tunnel_failed : Error → TunnelEvent
  token_cancelled : TunnelEvent

-- Whether the task goes on, what it sends on the socket, and whether it closes the tunnel.
pub record Delivered : Type 0 where
  pub goes_on : Result Bool
  pub sent : Option (SocketAddr × List ℕ)
  pub closes_tunnel : Bool

unfoldable pub deliver : Result (Option SocketAddr) → List ℕ → Delivered
deliver (ok (some origin)) payload = record {
  goes_on = ok true;
  sent = some (origin, payload);
  closes_tunnel = false;
}
deliver (ok none) payload = record { goes_on = ok true; sent = none; closes_tunnel = false }
deliver (err e) payload = record { goes_on = err e; sent = none; closes_tunnel = false }
deliver panic payload = record { goes_on = panic; sent = none; closes_tunnel = false }

-- `matches!(e, Error::ClosedTunnel)`
unfoldable pub goes_on_after : Error → Bool
goes_on_after closed_tunnel = false
goes_on_after e = true

unfoldable pub tunnel_turn : TunnelEvent → Delivered
unfolding deliver goes_on_after
tunnel_turn (datagram bytes) =
    let (origin, payload) = extract_origin_socket_addr_from_datagram bytes in deliver origin payload
tunnel_turn (tunnel_failed e) = record {
  goes_on = ok (goes_on_after e);
  sent = none;
  closes_tunnel = false;
}
tunnel_turn token_cancelled = record { goes_on = ok false; sent = none; closes_tunnel = true }

-- The task that reads a tunnel, over what ends its `select!`s: what it sends on the socket, and how it ends, if it does.
pub data ReaderEnd : Type 0 where
  reads_on : ReaderEnd
  returned : ReaderEnd
  panicked : ReaderEnd

pub record Reading : Type 0 where
  pub sent : List (SocketAddr × List ℕ)
  pub end : ReaderEnd

abbrev pub sends : Option (SocketAddr × List ℕ) → List (SocketAddr × List ℕ)
sends none = []
sends (some d) = d ∷ []

unfoldable pub after_tunnel_turn : Delivered → Reading → Reading
after_tunnel_turn turn rest = elim turn.goes_on [
  | ok goes_on ↦
      if goes_on
      then record { sent = sends turn.sent ++ rest.sent; end = rest.end }
      else record { sent = sends turn.sent; end = returned }
  | err _ ↦ record { sent = sends turn.sent; end = panicked }
  | panic ↦ record { sent = sends turn.sent; end = panicked }
]

unfoldable pub tunnel_run : List TunnelEvent → Reading
unfolding tunnel_turn after_tunnel_turn
tunnel_run [] = record { sent = []; end = reads_on }
tunnel_run (e ∷ events) = after_tunnel_turn (tunnel_turn e) (tunnel_run events)

pub id-assign : (t : Tunnel) (s : UdpIngress) → (assign_tunnel t s).1.id ≡ s.id
unfolding assign_tunnel
id-assign t s = ground arith

pub auth_key-assign : (t : Tunnel) (s : UdpIngress) → (assign_tunnel t s).1.auth_key ≡ s.auth_key
unfolding assign_tunnel
auth_key-assign t s = ground arith

-- `impl Ingress for UdpIngress`
instance abbrev pub udp_ingress : Ingress UdpIngress
udp_ingress = record {
  id = λ s. s.id;
  auth_key = λ s. s.auth_key;
  assign_tunnel = assign_tunnel;
  start = start;
  stop = stop;
  id-assign_tunnel = id-assign;
  auth_key-assign_tunnel = auth_key-assign;
}
