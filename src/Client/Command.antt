-- ===== src/Client/Command.antt =====
-- siffleux/src/client/protocols/v1.rs: `handle_client_protocol_v1_command_stream`, the task that it
-- spawns. The task returns nothing; `ok tt` is its end.
pub mod Keepalive
use siffleux.Prelude.{Option, none, some, List, [], ◌∷◌}
use siffleux.Error.{Error, Result, ok, err, panic, closed_tunnel}
use siffleux.Error.Convert.{unknown_error_code, unknown_error_client_reason, command_stream_closed}
use siffleux.Frames.{FrameV1, auth, authenticated, ping, pong}
use siffleux.Protocol.{CommandEvent, Next, go_on, return, Turn, Close}
use siffleux.Protocol.Loop.{Run, Events, command_loop}

abbrev pub idle : Turn
idle = record { next = go_on; sent = []; close = none }

abbrev pub end_with : Option Close → Turn
end_with close = record { next = return (ok tt); sent = []; close = close }

abbrev pub fault : Turn
fault = record { next = return panic; sent = []; close = none }

unfoldable pub send_ping : Result (Unit {0}) → Turn
send_ping (ok _) = record { next = go_on; sent = ping ∷ []; close = none }
send_ping (err e) = end_with (some (unknown_error_code, unknown_error_client_reason))
send_ping panic = fault

-- `let _ = send_framed.send(FrameV1::Pong).await`
unfoldable pub send_pong : Result (Unit {0}) → Turn
send_pong (ok _) = record { next = go_on; sent = pong ∷ []; close = none }
send_pong (err e) = idle
send_pong panic = fault

-- `if !matches!(e, Error::ClosedTunnel) { close }`
unfoldable pub close_on_error : Error → Option Close
close_on_error closed_tunnel = none
close_on_error e = some (unknown_error_code, unknown_error_client_reason)

unfoldable pub client_turn : CommandEvent → Result (Unit {0}) → Turn
unfolding send_ping send_pong close_on_error
client_turn CommandEvent.ping_due written = send_ping written
client_turn (CommandEvent.frame (ok ping)) written = send_pong written
client_turn (CommandEvent.frame (ok pong)) written = idle
client_turn (CommandEvent.frame (ok (auth _ _))) written = idle
client_turn (CommandEvent.frame (ok (authenticated _ _))) written = idle
client_turn (CommandEvent.frame (err e)) written = end_with (close_on_error e)
client_turn (CommandEvent.frame panic) written = fault
client_turn CommandEvent.end_of_stream written =
    end_with (some (command_stream_closed, "Command stream closed."))

unfoldable pub handle_client_protocol_v1_command_stream : Events → Run
unfolding command_loop client_turn
handle_client_protocol_v1_command_stream events = command_loop client_turn events
