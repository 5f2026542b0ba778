-- ===== src/Protocol/Copying.antt =====
-- siffleux/src/common/protocols/v1.rs: `handle_protocol_v1_tcp_stream`, two tasks that copy the bytes of a TCP
-- connection into a stream of a tunnel and back, under one cancellation token. The copying itself is a library's;
-- what is modelled is how each task ends, what it does to its write end, and what it does to the other task.
pub mod Closing
pub mod Clean
use siffleux.Prelude.{ℕ, Bool, true, false, ◌||◌, List, [], ◌∷◌, ◌++◌, if◌then◌else◌}
use siffleux.Error.Convert.{unknown_error_code}

-- The calls on a write end, as they are made. What they return is only logged.
pub data Call : Type 0 where
  finish : Call
  reset : ℕ → Call
  shutdown : Call

-- A task that copies: whether it still runs, and the calls that it has made on its write end.
pub record Copier : Type 0 where
  pub running : Bool
  pub calls : List Call

-- The stream's token is a child of the one that is given: it is cancelled when either is.
pub record Streaming : Type 0 where
  pub tcp_to_tunnel : Copier
  pub tunnel_to_tcp : Copier
  pub parent_cancelled : Bool
  pub stream_cancelled : Bool

unfoldable pub begin : Streaming
begin = record {
  tcp_to_tunnel = record { running = true; calls = [] };
  tunnel_to_tcp = record { running = true; calls = [] };
  parent_cancelled = false;
  stream_cancelled = false;
}

-- What happens next: a task's `copy_buf` ends, with or without an error, or its `select!` sees that the token is
-- cancelled; or the token above is cancelled.
pub data CopyEvent : Type 0 where
  tcp_read_closed : CopyEvent
  tcp_to_tunnel_failed : CopyEvent
  tcp_to_tunnel_sees_token : CopyEvent
  tunnel_read_closed : CopyEvent
  tunnel_to_tcp_failed : CopyEvent
  tunnel_to_tcp_sees_token : CopyEvent
  parent_token : CopyEvent

-- A task that runs makes its last call and returns.
unfoldable pub end_with : Call → Copier → Copier
end_with call c = record { running = false; calls = c.calls ++ (call ∷ []) }

unfoldable pub is_cancelled : Streaming → Bool
is_cancelled s = s.parent_cancelled || s.stream_cancelled

-- An event of a task that has returned, or of a token that is not cancelled, does not occur.
unfoldable pub copy_turn : CopyEvent → Streaming → Streaming
unfolding end_with is_cancelled
copy_turn tcp_read_closed s =
    if s.tcp_to_tunnel.running
    then record s { tcp_to_tunnel = end_with finish s.tcp_to_tunnel }
    else s
copy_turn tcp_to_tunnel_failed s =
    if s.tcp_to_tunnel.running
    then record s {
      tcp_to_tunnel = end_with (reset unknown_error_code) s.tcp_to_tunnel;
      stream_cancelled = true;
    }
    else s
copy_turn tcp_to_tunnel_sees_token s =
    if s.tcp_to_tunnel.running
    then if is_cancelled s
      then record s { tcp_to_tunnel = end_with (reset unknown_error_code) s.tcp_to_tunnel }
      else s
    else s
copy_turn tunnel_read_closed s =
    if s.tunnel_to_tcp.running
    then record s { tunnel_to_tcp = end_with shutdown s.tunnel_to_tcp }
    else s
copy_turn tunnel_to_tcp_failed s =
    if s.tunnel_to_tcp.running
    then record s { tunnel_to_tcp = end_with shutdown s.tunnel_to_tcp; stream_cancelled = true }
    else s
copy_turn tunnel_to_tcp_sees_token s =
    if s.tunnel_to_tcp.running
    then if is_cancelled s
      then record s { tunnel_to_tcp = end_with shutdown s.tunnel_to_tcp }
      else s
    else s
copy_turn parent_token s = record s { parent_cancelled = true }

unfoldable pub copy_run : List CopyEvent → Streaming → Streaming
unfolding copy_turn
copy_run [] s = s
copy_run (e ∷ events) s = copy_run events (copy_turn e s)
