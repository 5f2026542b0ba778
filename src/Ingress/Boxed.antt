-- ===== src/Ingress/Boxed.antt =====
-- siffleux/src/server/ingress/ingress.rs: `Box<dyn Ingress>`, over the two ingresses that there are. A
-- clone of the box shares the ingress, so it is the same value.
use siffleux.Frames.{SocketAddr}
use siffleux.ByteCounter.{Counters}
use siffleux.Prelude.{false, Bool, ℕ, ◌≡◌}
use siffleux.Error.{is_panic, Result}
use siffleux.Ids.Names.{IngressId, AuthKey}
use siffleux.Tunnel.{Tunnel}
use siffleux.Ingress.Trait.{Ingress, Bound}
use siffleux.Ingress.Pool
use siffleux.Ingress.Pool.{Pool}
use siffleux.Ingress.Tcp
use siffleux.Ingress.Tcp.Accept.{AcceptEvent}
use siffleux.Ingress.Tcp.Loops
use siffleux.Ingress.Tcp.{TcpIngress}
use siffleux.Ingress.Udp
use siffleux.Ingress.Udp.{SocketEvent, UdpIngress}

pub data BoxedIngress : Type 0 where
  tcp : TcpIngress → BoxedIngress
  udp : UdpIngress → BoxedIngress

abbrev pub id : BoxedIngress → IngressId
id (tcp s) = s.id
id (udp s) = s.id

abbrev pub auth_key : BoxedIngress → AuthKey
auth_key (tcp s) = s.auth_key
auth_key (udp s) = s.auth_key

abbrev pub pool : BoxedIngress → Pool
pool (tcp s) = s.pool
pool (udp s) = s.pool

unfoldable pub assign_tunnel : Tunnel → BoxedIngress → Result (Unit {0}) × BoxedIngress
assign_tunnel tunnel (tcp s) = let (result, s') = Tcp.assign_tunnel tunnel s in (result, tcp s')
assign_tunnel tunnel (udp s) = let (result, s') = Udp.assign_tunnel tunnel s in (result, udp s')

unfoldable pub start : Bound → BoxedIngress → Result (Unit {0}) × BoxedIngress
start bound (tcp s) = let (result, s') = Tcp.start bound s in (result, tcp s')
start bound (udp s) = let (result, s') = Udp.start bound s in (result, udp s')

unfoldable pub stop : BoxedIngress → Result (Unit {0}) × BoxedIngress
stop (tcp s) = let (result, s') = Tcp.stop s in (result, tcp s')
stop (udp s) = let (result, s') = Udp.stop s in (result, udp s')

-- What the tasks of an ingress do to it: the one that waits for a tunnel's end, the one that serves a
-- TCP connection, the one that accepts them, and the one that reads the UDP socket.
unfoldable pub on_closed : Tunnel → BoxedIngress → BoxedIngress
on_closed tunnel (tcp s) = tcp (record s { pool = Pool.on_closed tunnel s.pool })
on_closed tunnel (udp s) = udp (record s { pool = Pool.on_closed tunnel s.pool })

unfoldable pub handle_stream :
    Result SocketAddr → Result ℕ → BoxedIngress → Counters → BoxedIngress × Counters
handle_stream peer opened (tcp s) counters =
    let streamed = Tcp.handle_stream peer opened s counters in
    (tcp streamed.ingress, streamed.counters)
handle_stream peer opened (udp s) counters = (udp s, counters)

unfoldable pub loop_turn : ℕ → Bool → AcceptEvent → BoxedIngress → BoxedIngress
unfolding Loops.loop_turn
loop_turn listener debug_enabled event (tcp s) =
    tcp (Loops.loop_turn listener debug_enabled event s)
loop_turn listener debug_enabled event (udp s) = udp s

-- Whether the tasks that read or serve panic in that turn.
unfoldable pub stream_panics : Result SocketAddr → Result ℕ → BoxedIngress → Counters → Bool
unfolding Tcp.handle_stream
stream_panics peer opened (tcp s) counters =
    is_panic (Tcp.handle_stream peer opened s counters).result
stream_panics peer opened (udp s) counters = false

unfoldable pub socket_panics : SocketEvent → BoxedIngress → Bool
unfolding Udp.socket_turn
socket_panics event (tcp s) = false
socket_panics event (udp s) = is_panic (Udp.socket_turn event s).goes_on

unfoldable pub socket_turn : SocketEvent → BoxedIngress → BoxedIngress
socket_turn event (tcp s) = tcp s
socket_turn event (udp s) = udp (Udp.socket_turn event s).ingress

pub id-assign : (t : Tunnel) (s : BoxedIngress) → id (assign_tunnel t s).1 ≡ id s
unfolding assign_tunnel
id-assign t (tcp s) = Tcp.id-assign t s
id-assign t (udp s) = Udp.id-assign t s

pub auth_key-assign : (t : Tunnel) (s : BoxedIngress) → auth_key (assign_tunnel t s).1 ≡ auth_key s
unfolding assign_tunnel
auth_key-assign t (tcp s) = Tcp.auth_key-assign t s
auth_key-assign t (udp s) = Udp.auth_key-assign t s

-- The methods called through the box.
instance abbrev pub boxed_ingress : Ingress BoxedIngress
boxed_ingress = record {
  id = id;
  auth_key = auth_key;
  assign_tunnel = assign_tunnel;
  start = start;
  stop = stop;
  id-assign_tunnel = id-assign;
  auth_key-assign_tunnel = auth_key-assign;
}
