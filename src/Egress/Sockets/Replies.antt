-- ===== src/Egress/Sockets/Replies.antt =====
-- client/egress/udp_egress.rs: the two tasks of an origin. `pipe_tunnel_to_socket_datagram` takes datagrams from the
-- origin's channel to its socket, and `pipe_socket_to_tunnel_datagram` takes the answers back to the tunnel.
use siffleux.Prelude.{ℕ, Bool, true, false, Option, none, some, List, [], take, drop}
use siffleux.Error.{Result, ok, err, panic}
use siffleux.Frames.{SocketAddr, to_datagram}
use siffleux.Egress.Sockets.{Channel, max_messages_received}

-- What ends a `select!` of the task that writes to the socket: `recv_many` with messages or without
-- any sender left, the 60 seconds, or one of the tokens.
pub data OriginEvent : Type 0 where
  messages_ready : OriginEvent
  senders_gone : OriginEvent
  idle : OriginEvent
  process_cancelled : OriginEvent
  tunnel_closed : OriginEvent

-- The channel, what is sent on the socket, whether the task goes on, whether it tells that its origin has
-- expired, and whether it ends the task that reads the socket.
pub record OriginTurn : Type 0 where
  pub channel : Channel
  pub sent : List (List ℕ)
  pub goes_on : Bool
  pub expires : Bool
  pub cancels : Bool

-- The end of the task, which drops the receiver.
abbrev pub ended : Bool → Bool → OriginTurn
ended expires cancels = record {
  channel = record { queue = []; open_end = false };
  sent = [];
  goes_on = false;
  expires = expires;
  cancels = cancels;
}

-- At most as many messages are taken as the channel holds; an error of the socket is not looked at.
unfoldable pub origin_turn : OriginEvent → Channel → OriginTurn
origin_turn messages_ready channel = record {
  channel = record channel { queue = drop max_messages_received channel.queue };
  sent = take max_messages_received channel.queue;
  goes_on = true;
  expires = false;
  cancels = false;
}
origin_turn senders_gone channel = ended false false
origin_turn idle channel = ended true true
origin_turn process_cancelled channel = ended false false
origin_turn tunnel_closed channel = ended true false

-- The start of the task: without a socket it ends at once, and its origin expires.
unfoldable pub origin_start : Result ℕ → Channel → OriginTurn
origin_start (ok socket) channel = record {
  channel = channel;
  sent = [];
  goes_on = true;
  expires = false;
  cancels = false;
}
origin_start (err e) channel = ended true false
origin_start panic channel = ended false false

-- What ends a `select!` of the task that reads the socket: the bytes at the front of its buffer, an error,
-- or one of the tokens.
pub data ReplyEvent : Type 0 where
  received : List ℕ → ℕ → ReplyEvent
  failed : ReplyEvent
  socket_cancelled : ReplyEvent
  tunnel_closed : ReplyEvent
  process_cancelled : ReplyEvent

-- Whether the task goes on, and the datagram that it gives to the tunnel.
pub record Reply : Type 0 where
  pub goes_on : Result Bool
  pub sent : Option (List ℕ)

unfoldable pub reply_with : Result (List ℕ) → Reply
reply_with (ok datagram) = record { goes_on = ok true; sent = some datagram }
reply_with (err e) = record { goes_on = err e; sent = none }
reply_with panic = record { goes_on = panic; sent = none }

-- An error of `send_datagram` is not looked at.
unfoldable pub reply_turn : SocketAddr → ReplyEvent → Reply
unfolding reply_with
reply_turn origin (received buffer size) = reply_with (to_datagram origin buffer size)
reply_turn origin failed = record { goes_on = ok true; sent = none }
reply_turn origin socket_cancelled = record { goes_on = ok false; sent = none }
reply_turn origin tunnel_closed = record { goes_on = ok false; sent = none }
reply_turn origin process_cancelled = record { goes_on = ok false; sent = none }
