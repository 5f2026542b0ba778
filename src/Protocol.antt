-- ===== src/Protocol.antt =====
-- What the handlers of server/protocols/v1.rs and client/protocols/v1.rs wait for and what they do.
pub mod Loop
pub mod Copying
use siffleux.Prelude.{ℕ, String, Option, List}
use siffleux.Error.{Result}
use siffleux.Frames.{FrameV1}
use siffleux.ByteCounter.{Counters}

-- `connection.close(code, reason)`
abbrev pub Close : Type 0
Close = ℕ × String

-- What ends the first `select!` of a handshake: an item of the framed stream (a panic is one of the
-- decoder), the end of the stream, or the five seconds.
pub data AuthEvent : Type 0 where
  frame : Result FrameV1 → AuthEvent
  end_of_stream : AuthEvent
  timeout : AuthEvent

-- What a handshake leaves: its result, how it closed the connection, the frames that it wrote, and
-- the counters.
pub record AuthOutcome (A : Type 0) : Type 0 where
  pub result : Result A
  pub close : Option Close
  pub sent : List FrameV1
  pub counters : Counters

-- What ends one `select!` of a command stream.
pub data CommandEvent : Type 0 where
  ping_due : CommandEvent
  frame : Result FrameV1 → CommandEvent
  end_of_stream : CommandEvent

pub data Next : Type 0 where
  go_on : Next
  return : Result (Unit {0}) → Next

-- One turn of a command stream: how it goes on, the frames that it wrote, how it closed the
-- connection.
pub record Turn : Type 0 where
  pub next : Next
  pub sent : List FrameV1
  pub close : Option Close
