-- ===== src/Server/Auth.antt =====
-- siffleux/src/server/protocols/v1.rs: `handle_server_protocol_v1_auth`.
pub mod Outcomes
use siffleux.Prelude.{ℕ, Option, none, some, List, [], ◌∷◌, not, bytes_beq, if◌then◌else◌}
use siffleux.Error.{
  Result, ok, err, panic, rejected_ingress_id, rejected_auth_key, unexpected_frame_received,
  unknown, error_cause, connection_closed, frame_not_received_on_time,
}
use siffleux.Error.Convert.{
  rejected_ingress_id_code, rejected_auth_key_code, unexpected_frame_received_code,
  unknown_error_code, unknown_error_server_reason, frame_not_received_on_time_code,
}
use siffleux.Ids.Names.{AuthKey, IngressId}
use siffleux.Frames.{FrameV1, Uuid, auth, authenticated, ping, pong}
use siffleux.ByteCounter.{Counters}
use siffleux.Tunnel
use siffleux.Tunnel.{Tunnel}
use siffleux.Ingress.Trait.{Ingress}
use siffleux.Protocol.{AuthEvent, AuthOutcome}
use siffleux.Server.{Server, get_ingress_by_id}

module _ {I : Type 0} where
  -- The answer to the right key: the frame is written, and the tunnel made once it is.
  unfoldable pub authenticate :
      I → Server I → ℕ → Uuid → Result (Unit {0}) → Counters → AuthOutcome (I × Tunnel)
  unfolding Tunnel.new
  authenticate ingress server connection tunnel_id (ok _) counters =
      let (tunnel, counters') =
        Tunnel.new tunnel_id server.id connection (some server.byte_counter) counters in
      record {
        result = ok (ingress, tunnel);
        close = none;
        sent = authenticated tunnel_id server.id ∷ [];
        counters = counters';
      }
  authenticate ingress server connection tunnel_id (err e) counters = record {
    result = err e;
    close = none;
    sent = [];
    counters = counters;
  }
  authenticate ingress server connection tunnel_id panic counters = record {
    result = panic;
    close = none;
    sent = [];
    counters = counters;
  }

  -- The arm of an auth frame: look up the ingress, then compare its key.
  unfoldable pub handle_auth_frame :
      ⦃t : Ingress I⦄
      → Server I
      → ℕ
      → Uuid
      → Result (Unit {0})
      → Counters
      → AuthKey
      → IngressId
      → AuthOutcome (I × Tunnel)
  unfolding authenticate
  handle_auth_frame ⦃t⦄ server connection tunnel_id written counters auth_key ingress_id =
      elim (get_ingress_by_id ingress_id server) [
        | none ↦ record {
          result = err rejected_ingress_id;
          close = some (rejected_ingress_id_code, "rejected ingress id");
          sent = [];
          counters = counters;
        }
        | some ingress ↦
            if not (bytes_beq (t.auth_key ingress).value auth_key.value)
            then record {
              result = err rejected_auth_key;
              close = some (rejected_auth_key_code, "rejected auth key");
              sent = [];
              counters = counters;
            }
            else authenticate ingress server connection tunnel_id written counters
      ]

  -- Any other frame.
  unfoldable pub unexpected_frame : Counters → AuthOutcome (I × Tunnel)
  unexpected_frame counters = record {
    result = err (unexpected_frame_received "Expected first frame to be auth.");
    close = some (unexpected_frame_received_code, "Expected first frame to be auth.");
    sent = [];
    counters = counters;
  }

  -- `tunnel_id` is what `Uuid::now_v7` gives, and `written` what sending the answer returns.
  unfoldable pub handle_server_protocol_v1_auth :
      ⦃t : Ingress I⦄
      → Server I
      → ℕ
      → Uuid
      → Result (Unit {0})
      → Counters
      → AuthEvent
      → AuthOutcome (I × Tunnel)
  unfolding handle_auth_frame unexpected_frame
  handle_server_protocol_v1_auth server connection tunnel_id written counters
        (AuthEvent.frame (ok (auth auth_key ingress_id))) =
      handle_auth_frame server connection tunnel_id written counters auth_key ingress_id
  handle_server_protocol_v1_auth server connection tunnel_id written counters
        (AuthEvent.frame (ok (authenticated _ _))) =
      unexpected_frame counters
  handle_server_protocol_v1_auth server connection tunnel_id written counters
        (AuthEvent.frame (ok ping)) =
      unexpected_frame counters
  handle_server_protocol_v1_auth server connection tunnel_id written counters
        (AuthEvent.frame (ok pong)) =
      unexpected_frame counters
  handle_server_protocol_v1_auth server connection tunnel_id written counters
        (AuthEvent.frame (err e)) =
      record {
        result = err (unknown (error_cause e));
        close = some (unknown_error_code, unknown_error_server_reason);
        sent = [];
        counters = counters;
      }
  handle_server_protocol_v1_auth server connection tunnel_id written counters
        (AuthEvent.frame panic) =
      record { result = panic; close = none; sent = []; counters = counters }
  handle_server_protocol_v1_auth server connection tunnel_id written counters
        AuthEvent.end_of_stream =
      record { result = err connection_closed; close = none; sent = []; counters = counters }
  handle_server_protocol_v1_auth server connection tunnel_id written counters AuthEvent.timeout =
      record {
        result = err (frame_not_received_on_time "Auth frame not received on time.");
        close = some (frame_not_received_on_time_code, "Auth frame not received on time.");
        sent = [];
        counters = counters;
      }
