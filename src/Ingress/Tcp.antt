-- ===== src/Ingress/Tcp.antt =====
-- siffleux/src/server/ingress/tcp_ingress.rs: the TCP ingress.
pub mod Lifecycle
pub mod Accept
pub mod Loops
use siffleux.Prelude.{ℕ, Option, none, some, List, [], ◌∷◌, ◌≡◌, refl}
use siffleux.Error.{
  Result, ok, err, panic, ingress_already_listening, ingress_not_listening,
  ingress_no_tunnel_connected,
}
use siffleux.Ids.Names.{IngressId, AuthKey}
use siffleux.Frames.{SocketAddr}
use siffleux.Tunnel
use siffleux.Tunnel.{Tunnel, TunnelStream}
use siffleux.ByteCounter.{Counters}
use siffleux.Ingress.Trait.{Ingress, Bound}
use siffleux.Ingress.Pool
use siffleux.Ingress.Pool.{Pool}

-- `listeners` are the accept loops that run, each with the listener that it shares (`Arc`): a start spawns one, and its
-- own `handle_listener` ends it. `watchers` are the tasks that wait for a tunnel's end.
pub record TcpIngress : Type 0 where
  pub id : IngressId
  pub auth_key : AuthKey
  pub socket_addr : SocketAddr
  pub pool : Pool
  pub tcp_listener : Option ℕ
  pub tcp_listener_socket_addr : Option SocketAddr
  pub listeners : List ℕ
  pub watchers : List Tunnel

unfoldable pub new : IngressId → AuthKey → SocketAddr → TcpIngress
new id auth_key socket_addr = record {
  id = id;
  auth_key = auth_key;
  socket_addr = socket_addr;
  pool = Pool.empty;
  tcp_listener = none;
  tcp_listener_socket_addr = none;
  listeners = [];
  watchers = [];
}

unfoldable pub assign_tunnel : Tunnel → TcpIngress → Result (Unit {0}) × TcpIngress
unfolding Pool.push
assign_tunnel tunnel s =
    (ok tt, record s { watchers = tunnel ∷ s.watchers; pool = Pool.push tunnel s.pool })

-- The listener is bound, its address stored, then the listener stored and its loop spawned.
unfoldable pub bind : Bound → TcpIngress → Result (Unit {0}) × TcpIngress
bind (err e) s = (err e, s)
bind panic s = (panic, s)
bind (ok (listener, err e)) s = (err e, s)
bind (ok (listener, panic)) s = (panic, s)
bind (ok (listener, ok addr)) s = (
  ok tt,
  record s {
    tcp_listener_socket_addr = some addr;
    tcp_listener = some listener;
    listeners = listener ∷ s.listeners;
  },
)

unfoldable pub start : Bound → TcpIngress → Result (Unit {0}) × TcpIngress
unfolding bind
start bound s = elim s.tcp_listener [
  | some _ ↦ (err ingress_already_listening, s)
  | none ↦ bind bound s
]

-- The ingress drops its handle to the listener.
unfoldable pub stop : TcpIngress → Result (Unit {0}) × TcpIngress
stop s = elim s.tcp_listener [
  | some _ ↦ (ok tt, record s { tcp_listener = none })
  | none ↦ (err ingress_not_listening, s)
]

unfoldable pub socket_addr : TcpIngress → Option SocketAddr
socket_addr s = s.tcp_listener_socket_addr

-- `handle_stream`, up to the copying of the two directions: the peer's address (or the panic of
-- `set_nodelay(…).unwrap()` before it), then a tunnel, then a stream in it, whose id is what `open_bi` gives.
unfoldable pub open_stream :
    Result SocketAddr → Result ℕ → Tunnel → Counters → Result (SocketAddr × TunnelStream) × Counters
unfolding Tunnel.new_stream
open_stream (ok remote) (ok stream_id) tunnel counters =
    let (stream, counters') = Tunnel.new_stream stream_id tunnel counters in
    (ok (remote, stream), counters')
open_stream (ok remote) (err e) tunnel counters = (err e, counters)
open_stream (ok remote) panic tunnel counters = (panic, counters)
open_stream (err e) opened tunnel counters = (err e, counters)
open_stream panic opened tunnel counters = (panic, counters)

unfoldable pub with_tunnel :
    Result SocketAddr
    → Result ℕ
    → Result (Option Tunnel)
    → Counters
    → Result (SocketAddr × TunnelStream) × Counters
unfolding open_stream
with_tunnel peer opened (ok (some tunnel)) counters = open_stream peer opened tunnel counters
with_tunnel peer opened (ok none) counters = (err ingress_no_tunnel_connected, counters)
with_tunnel peer opened (err e) counters = (err e, counters)
with_tunnel peer opened panic counters = (panic, counters)

pub record Streamed : Type 0 where
  pub result : Result (SocketAddr × TunnelStream)
  pub ingress : TcpIngress
  pub counters : Counters

unfoldable pub handle_stream : Result SocketAddr → Result ℕ → TcpIngress → Counters → Streamed
unfolding with_tunnel Pool.get_tunnel_to_connect
handle_stream (ok remote) opened s counters =
    let (picked, pool') = Pool.get_tunnel_to_connect s.pool in
    let (result, counters') = with_tunnel (ok remote) opened picked counters in
    record { result = result; ingress = record s { pool = pool' }; counters = counters' }
handle_stream (err e) opened s counters = record {
  result = err e;
  ingress = s;
  counters = counters;
}
handle_stream panic opened s counters = record { result = panic; ingress = s; counters = counters }

pub id-assign : (t : Tunnel) (s : TcpIngress) → (assign_tunnel t s).1.id ≡ s.id
unfolding assign_tunnel
id-assign t s = refl

pub auth_key-assign : (t : Tunnel) (s : TcpIngress) → (assign_tunnel t s).1.auth_key ≡ s.auth_key
unfolding assign_tunnel
auth_key-assign t s = refl

-- `impl Ingress for TcpIngress`
instance abbrev pub tcp_ingress : Ingress TcpIngress
tcp_ingress = record {
  id = λ s. s.id;
  auth_key = λ s. s.auth_key;
  assign_tunnel = assign_tunnel;
  start = start;
  stop = stop;
  id-assign_tunnel = id-assign;
  auth_key-assign_tunnel = auth_key-assign;
}
