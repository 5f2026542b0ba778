-- ===== src/System.antt =====
-- A server with all that happens to it: the connections of siffleux/src/server/server.rs, and the tasks of
-- the ingresses that share their state with its registry. Each happening is one step.
pub mod Pools
pub mod Kept
pub mod Granted
pub mod Connections
pub mod Authenticated
pub mod Datagrams
pub mod Aborted
pub mod Fatal
use siffleux.Prelude.{Bool, true, false, Option, ◌&&◌, if◌then◌else◌, ℕ, none, some, List, [], ◌∷◌}
use siffleux.Error.{Result, ok, err, panic, unwrap, is_panic}
use siffleux.Ids.Names.{IngressId}
use siffleux.Frames.{SocketAddr}
use siffleux.ByteCounter.{Counters}
use siffleux.Tunnel.{Tunnel}
use siffleux.Ingress.Trait.{Bound}
use siffleux.Ingress.Boxed
use siffleux.Ingress.Boxed.{BoxedIngress, boxed_ingress}
use siffleux.Ingress.Udp.{SocketEvent, TunnelEvent, tunnel_turn}
use siffleux.Ingress.Tcp.Accept.{AcceptEvent, AcceptTurn, goes_on, returns, accept_turn}
use siffleux.Server.{Server, get_ingress_by_id, update_ingress}
use siffleux.Server.Connection.{Meeting, handle_connection}

-- A client connects; in the ingress of an id, a tunnel's end is noticed, a TCP connection is served, a UDP
-- socket is read, it is started or stopped, or its accept loop over a listener takes a turn, with or without debug
-- messages; or a task that reads a tunnel takes a turn.
pub data Happening : Type 0 where
  connected : Meeting → Happening
  tunnel_ended : IngressId → Tunnel → Happening
  stream_accepted : IngressId → Result SocketAddr → Result ℕ → Happening
  socket_read : IngressId → SocketEvent → Happening
  ingress_started : IngressId → Bound → Happening
  ingress_stopped : IngressId → Happening
  listened : IngressId → ℕ → Bool → AcceptEvent → Happening
  tunnel_read : TunnelEvent → Happening

abbrev pub World : Type 0
World = Server BoxedIngress × Counters

unfoldable pub in_ingress :
    IngressId → (BoxedIngress → Counters → BoxedIngress × Counters) → World → World
in_ingress k f (server, counters) = elim (get_ingress_by_id k server) [
  | none ↦ (server, counters)
  | some i ↦ let (i', counters') = f i counters in (update_ingress k i' server, counters')
]

-- A change that the counters have no part in.
abbrev pub uncounted :
    (BoxedIngress → BoxedIngress) → BoxedIngress → Counters → BoxedIngress × Counters
uncounted f i counters = (f i, counters)

unfoldable pub step : Happening → World → World
unfolding in_ingress
step (connected m) (server, counters) =
    let served = handle_connection server counters m in (served.server, served.counters)
step (tunnel_ended k tunnel) w = in_ingress k (uncounted (Boxed.on_closed tunnel)) w
step (stream_accepted k peer opened) w = in_ingress k (Boxed.handle_stream peer opened) w
step (socket_read k event) w = in_ingress k (uncounted (Boxed.socket_turn event)) w
step (ingress_started k bound) w = in_ingress k (uncounted (λ i. (Boxed.start bound i).1)) w
step (ingress_stopped k) w = in_ingress k (uncounted (λ i. (Boxed.stop i).1)) w
step (listened k listener debug_enabled event) w =
    in_ingress k (uncounted (Boxed.loop_turn listener debug_enabled event)) w
step (tunnel_read event) w = w

unfoldable pub ingress_panics : IngressId → (BoxedIngress → Counters → Bool) → World → Bool
ingress_panics k f (server, counters) = elim (get_ingress_by_id k server) [
  | none ↦ false
  | some i ↦ f i counters
]

-- `handle_listener(…).await.unwrap()`
unfoldable pub accept_panics : AcceptTurn → Bool
accept_panics goes_on = false
accept_panics (returns result) = is_panic (unwrap result)

-- Whether the task of the step panics.
unfoldable pub panics : Happening → World → Bool
unfolding ingress_panics accept_panics
panics (connected m) (server, counters) = (handle_connection server counters m).panics
panics (tunnel_ended k tunnel) w = false
panics (stream_accepted k peer opened) w = ingress_panics k (Boxed.stream_panics peer opened) w
panics (socket_read k event) w = ingress_panics k (λ i counters. Boxed.socket_panics event i) w
panics (ingress_started k bound) w =
    ingress_panics k (λ i counters. is_panic (Boxed.start bound i).0) w
panics (ingress_stopped k) w = ingress_panics k (λ i counters. is_panic (Boxed.stop i).0) w
panics (listened k listener debug_enabled event) w = accept_panics (accept_turn debug_enabled event)
panics (tunnel_read event) w = is_panic (tunnel_turn event).goes_on

-- The last happening comes first.
unfoldable pub run : List Happening → World → World
unfolding step
run [] w = w
run (e ∷ past) w = step e (run past w)

-- The process, which a panic ends if the build aborts on panics, as the release profile of Cargo.toml does.
unfoldable pub live_run : Bool → List Happening → World → Option World
unfolding step panics
live_run aborts [] w = some w
live_run aborts (e ∷ past) w = elim (live_run aborts past w) [
  | none ↦ none
  | some now ↦ if aborts && panics e now then none else some (step e now)
]
