-- ===== src/Server/Connection.antt =====
-- siffleux/src/server/server.rs: `handle_connection`, from an incoming connection to its end.
use siffleux.Prelude.{true, Bool, false, ℕ, ◌≡◌, refl, Option, none, some, List, [], ◌∷◌, ◌++◌}
use siffleux.Error.{is_panic, Result, ok, err, panic}
use siffleux.Error.Convert.{unknown_error_code, unknown_error_server_reason}
use siffleux.Frames.{Uuid}
use siffleux.ByteCounter.{Counters}
use siffleux.Tunnel.{Tunnel}
use siffleux.Ingress.Trait.{Ingress}
use siffleux.Protocol.{AuthEvent, AuthOutcome, Close}
use siffleux.Protocol.Loop.{Run, Events}
use siffleux.Server.{Server, update_ingress}
use siffleux.Server.Auth.{handle_server_protocol_v1_auth}
use siffleux.Server.Auth.Outcomes.{auth_sound}
use siffleux.Server.Command.{handle_server_protocol_v1_command_stream}
use siffleux.Server.Registry.{IsWellFormed, assign_tunnel-IsWellFormed}

-- What the task meets: the connection, its first stream, the handshake's new id, write and event,
-- and the events of the command stream.
pub record Meeting : Type 0 where
  pub incoming : Result ℕ
  pub accepted : Result (Unit {0})
  pub tunnel_id : Uuid
  pub written : Result (Unit {0})
  pub event : AuthEvent
  pub events : Events

-- What it leaves: the server, the counters, each `close` of the connection, in order, and whether the task panics.
pub record Served (I : Type 0) : Type 0 where
  pub server : Server I
  pub counters : Counters
  pub closes : List Close
  pub panics : Bool

abbrev pub close_list : Option Close → List Close
close_list none = []
close_list (some c) = c ∷ []

-- After the command stream: an error closes the tunnel.
unfoldable pub closes_of_run : Run → List Close
closes_of_run run = elim run.outcome [
  | none ↦ []
  | some r ↦ elim r [
    | ok _ ↦ []
    | err _ ↦ (unknown_error_code, unknown_error_server_reason) ∷ []
    | panic ↦ []
  ]
]

unfoldable pub run_panics : Run → Bool
run_panics run = elim run.outcome [ none ↦ false | some r ↦ is_panic r ]

module _ {I : Type 0} where
  -- The handshake's result: an error is only logged. What `assign_tunnel` returns is only logged too;
  -- what it changes, it changes in the ingress that the registry shares.
  unfoldable pub serve_tunnel :
      ⦃t : Ingress I⦄ → Server I → AuthOutcome (I × Tunnel) → Events → Served I
  unfolding closes_of_run run_panics
  serve_tunnel ⦃t⦄ server outcome events = elim outcome.result [
    | ok (ingress, tunnel) ↦ record {
      server = update_ingress (t.id ingress) (t.assign_tunnel tunnel ingress).1 server;
      counters = outcome.counters;
      closes =
          close_list outcome.close
          ++ closes_of_run (handle_server_protocol_v1_command_stream events);
      panics = run_panics (handle_server_protocol_v1_command_stream events);
    }
    | err _ ↦ record {
      server = server;
      counters = outcome.counters;
      closes = close_list outcome.close;
      panics = false;
    }
    | panic ↦ record {
      server = server;
      counters = outcome.counters;
      closes = close_list outcome.close;
      panics = true;
    }
  ]

  unfoldable pub handle_connection : ⦃t : Ingress I⦄ → Server I → Counters → Meeting → Served I
  unfolding serve_tunnel
  handle_connection server counters m = elim m.incoming [
    | err _ ↦ record { server = server; counters = counters; closes = []; panics = false }
    | panic ↦ record { server = server; counters = counters; closes = []; panics = true }
    | ok connection ↦ elim m.accepted [
      | ok _ ↦
          serve_tunnel server
            (handle_server_protocol_v1_auth server connection m.tunnel_id m.written counters
              m.event)
            m.events
      | err _ ↦ record {
        server = server;
        counters = counters;
        closes = (unknown_error_code, unknown_error_server_reason) ∷ [];
        panics = false;
      }
      | panic ↦ record { server = server; counters = counters; closes = []; panics = true }
    ]
  ]

module _ {I : Type 0} ⦃t : Ingress I⦄ where
  serve-IsWellFormed :
      (server : Server I) (connection : ℕ) (tunnel_id : Uuid) (written : Result (Unit {0}))
      (cs : Counters) (event : AuthEvent) (events : Events)
      → IsWellFormed server
      → IsWellFormed
          (serve_tunnel server
            (handle_server_protocol_v1_auth server connection tunnel_id written cs event)
            events).server
  unfolding serve_tunnel
  serve-IsWellFormed server connection tunnel_id written cs event events w =
      go (handle_server_protocol_v1_auth server connection tunnel_id written cs event).result refl
    where
      go :
          (r : Result (I × Tunnel))
          → (handle_server_protocol_v1_auth server connection tunnel_id written cs event).result ≡ r
          → IsWellFormed
              (serve_tunnel server
                (handle_server_protocol_v1_auth server connection tunnel_id written cs event)
                events).server
      go (err e) h = rw (h, serve_tunnel) w
      go panic h = rw (h, serve_tunnel) w
      go (ok (ingress, tunnel)) h =
          let a = auth_sound server connection tunnel_id written cs event ingress tunnel h in
          rw (h, serve_tunnel)
            (assign_tunnel-IsWellFormed tunnel (t.id ingress) ingress server w
              (rw (w.keyed a.ingress_id ingress a.found) a.found))

  -- Whatever a connection brings, a registry that has every ingress under its own id stays so.
  pub handle_connection-IsWellFormed :
      (server : Server I) (cs : Counters) (m : Meeting)
      → IsWellFormed server
      → IsWellFormed (handle_connection server cs m).server
  unfolding handle_connection
  handle_connection-IsWellFormed server cs m w = go m.incoming m.accepted refl refl
    where
      go :
          (i : Result ℕ) (a : Result (Unit {0}))
          → m.incoming ≡ i
          → m.accepted ≡ a
          → IsWellFormed (handle_connection server cs m).server
      go (err e) a hi ha = rw (hi, handle_connection) w
      go panic a hi ha = rw (hi, handle_connection) w
      go (ok c) (err e) hi ha = rw (hi, ha, handle_connection) w
      go (ok c) panic hi ha = rw (hi, ha, handle_connection) w
      go (ok c) (ok u) hi ha =
          rw (hi, ha, handle_connection)
            (serve-IsWellFormed server c m.tunnel_id m.written cs m.event m.events w)
