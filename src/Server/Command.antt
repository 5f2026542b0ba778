-- ===== src/Server/Command.antt =====
-- siffleux/src/server/protocols/v1.rs: `handle_server_protocol_v1_command_stream`.
use siffleux.Prelude.{none, [], ◌∷◌}
use siffleux.Error.{Error, Result, ok, err, panic, closed_tunnel}
use siffleux.Frames.{FrameV1, auth, authenticated, ping, pong}
use siffleux.Protocol.{CommandEvent, go_on, return, Turn}
use siffleux.Protocol.Loop.{Run, Events, command_loop}

abbrev pub idle : Turn
idle = record { next = go_on; sent = []; close = none }

abbrev pub stop_with : Result (Unit {0}) → Turn
stop_with r = record { next = return r; sent = []; close = none }

-- `write_framed.send(frame).await?`
unfoldable pub send_or_return : FrameV1 → Result (Unit {0}) → Turn
send_or_return frame (ok _) = record { next = go_on; sent = frame ∷ []; close = none }
send_or_return frame (err e) = stop_with (err e)
send_or_return frame panic = stop_with panic

-- `Error::ClosedTunnel` is a clean end.
unfoldable pub end_by_error : Error → Result (Unit {0})
end_by_error closed_tunnel = ok tt
end_by_error e = err e

unfoldable pub server_turn : CommandEvent → Result (Unit {0}) → Turn
unfolding send_or_return end_by_error
server_turn CommandEvent.ping_due written = send_or_return ping written
server_turn (CommandEvent.frame (ok ping)) written = send_or_return pong written
server_turn (CommandEvent.frame (ok pong)) written = idle
server_turn (CommandEvent.frame (ok (auth _ _))) written = idle
server_turn (CommandEvent.frame (ok (authenticated _ _))) written = idle
server_turn (CommandEvent.frame (err e)) written = stop_with (end_by_error e)
server_turn (CommandEvent.frame panic) written = stop_with panic
server_turn CommandEvent.end_of_stream written = stop_with (ok tt)

unfoldable pub handle_server_protocol_v1_command_stream : Events → Run
unfolding command_loop server_turn
handle_server_protocol_v1_command_stream events = command_loop server_turn events
