-- ===== src/Client/Auth.antt =====
-- siffleux/src/client/protocols/v1.rs: `handle_client_protocol_v1_auth`. On success it also spawns
-- the command stream of `Client/Command.antt` over the same streams.
use siffleux.Prelude.{ℕ, none, some, [], ◌∷◌}
use siffleux.Error.{
  Result, ok, err, panic, unexpected_frame_received, connection_closed, frame_not_received_on_time,
}
use siffleux.Error.Convert.{
  unexpected_frame_received_code, unknown_error_code, unknown_error_client_reason,
  frame_not_received_on_time_code,
}
use siffleux.Ids.Names.{AuthKey, IngressId}
use siffleux.Frames.{auth, authenticated, ping, pong}
use siffleux.ByteCounter.{Counters}
use siffleux.Tunnel
use siffleux.Tunnel.{Tunnel}
use siffleux.Protocol.{AuthEvent, AuthOutcome}

unfoldable pub unexpected_answer : Counters → AuthOutcome Tunnel
unexpected_answer counters = record {
  result = err (unexpected_frame_received "First frame received wasn't authenticated.");
  close = some (unexpected_frame_received_code, "First frame received wasn't authenticated.");
  sent = [];
  counters = counters;
}

-- The `select!` on the server's answer.
unfoldable pub handle_answer : ℕ → ℕ → Counters → AuthEvent → AuthOutcome Tunnel
unfolding unexpected_answer Tunnel.new
handle_answer connection client_byte_counter counters
      (AuthEvent.frame (ok (authenticated tunnel_id server_id))) =
    let (tunnel, counters') =
      Tunnel.new tunnel_id server_id connection (some client_byte_counter) counters in
    record { result = ok tunnel; close = none; sent = []; counters = counters' }
handle_answer connection client_byte_counter counters (AuthEvent.frame (ok (auth _ _))) =
    unexpected_answer counters
handle_answer connection client_byte_counter counters (AuthEvent.frame (ok ping)) =
    unexpected_answer counters
handle_answer connection client_byte_counter counters (AuthEvent.frame (ok pong)) =
    unexpected_answer counters
handle_answer connection client_byte_counter counters (AuthEvent.frame (err e)) = record {
  result = err e;
  close = some (unknown_error_code, unknown_error_client_reason);
  sent = [];
  counters = counters;
}
handle_answer connection client_byte_counter counters (AuthEvent.frame panic) = record {
  result = panic;
  close = none;
  sent = [];
  counters = counters;
}
handle_answer connection client_byte_counter counters AuthEvent.end_of_stream = record {
  result = err connection_closed;
  close = none;
  sent = [];
  counters = counters;
}
handle_answer connection client_byte_counter counters AuthEvent.timeout = record {
  result = err (frame_not_received_on_time "Authenticated frame not received on time.");
  close = some (frame_not_received_on_time_code, "Authenticated frame not received on time.");
  sent = [];
  counters = counters;
}

-- `opened` is what opening the stream returns, and `written` what sending the auth frame does.
unfoldable pub handle_client_protocol_v1_auth :
    ℕ
    → AuthKey
    → IngressId
    → ℕ
    → Result (Unit {0})
    → Result (Unit {0})
    → Counters
    → AuthEvent
    → AuthOutcome Tunnel
unfolding handle_answer
handle_client_protocol_v1_auth connection auth_key ingress_id client_byte_counter (err e) written
      counters event =
    record { result = err e; close = none; sent = []; counters = counters }
handle_client_protocol_v1_auth connection auth_key ingress_id client_byte_counter panic written
      counters event =
    record { result = panic; close = none; sent = []; counters = counters }
handle_client_protocol_v1_auth connection auth_key ingress_id client_byte_counter (ok _) (err e)
      counters event =
    record { result = err e; close = none; sent = []; counters = counters }
handle_client_protocol_v1_auth connection auth_key ingress_id client_byte_counter (ok _) panic
      counters event =
    record { result = panic; close = none; sent = []; counters = counters }
handle_client_protocol_v1_auth connection auth_key ingress_id client_byte_counter (ok _) (ok _)
      counters event =
    let answer = handle_answer connection client_byte_counter counters event in
    record answer { sent = auth auth_key ingress_id ∷ answer.sent }
