-- ===== src/Protocol/Loop.antt =====
-- The `loop` of the command streams, over the events that end its `select!`s, each with what writing a
-- frame would return in that turn.
use siffleux.Prelude.{Option, none, some, List, [], ◌∷◌, ◌++◌}
use siffleux.Error.{Result}
use siffleux.Frames.{FrameV1}
use siffleux.Protocol.{CommandEvent, go_on, return, Turn, Close}

-- `none` is a loop that still runs when the events are used up.
pub record Run : Type 0 where
  pub outcome : Option (Result (Unit {0}))
  pub sent : List FrameV1
  pub close : Option Close

abbrev pub Events : Type 0
Events = List (CommandEvent × Result (Unit {0}))

unfoldable pub after_turn : Turn → Run → Run
after_turn turn rest = elim turn.next [
  | return r ↦ record { outcome = some r; sent = turn.sent; close = turn.close }
  | go_on ↦ record { outcome = rest.outcome; sent = turn.sent ++ rest.sent; close = rest.close }
]

unfoldable pub command_loop : (CommandEvent → Result (Unit {0}) → Turn) → Events → Run
command_loop step [] = record { outcome = none; sent = []; close = none }
command_loop step ((event, written) ∷ events) =
    after_turn (step event written) (command_loop step events)
