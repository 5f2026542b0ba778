-- ===== src/Client/Command/Keepalive.antt =====
-- siffleux/src/client/protocols/v1.rs and siffleux/src/server/protocols/v1.rs: the keepalive of the
-- two command streams.
use siffleux.Prelude.{ℕ, ◌+◌, ◌≡◌, refl, none, List, [], ◌∷◌, ◌++◌, arith, ap}
use siffleux.Error.{ok, err, panic}
use siffleux.Frames.{FrameV1, auth, authenticated, ping, pong}
use siffleux.Protocol.{CommandEvent}
use siffleux.Protocol.Loop.{Run, Events, after_turn}
use siffleux.Server.Command.{handle_server_protocol_v1_command_stream}
use siffleux.Client.Command.{handle_client_protocol_v1_command_stream}

abbrev pub is_ping : FrameV1 → ℕ
is_ping ping = 1
is_ping pong = 0
is_ping (auth _ _) = 0
is_ping (authenticated _ _) = 0

abbrev pub is_pong : FrameV1 → ℕ
is_pong pong = 1
is_pong ping = 0
is_pong (auth _ _) = 0
is_pong (authenticated _ _) = 0

-- How many frames of a kind were written.
pub count : (FrameV1 → ℕ) → List FrameV1 → ℕ
count kind [] = 0
count kind (f ∷ fs) = kind f + count kind fs

abbrev pub ping_received : CommandEvent → ℕ
ping_received CommandEvent.ping_due = 0
ping_received (CommandEvent.frame (ok f)) = is_ping f
ping_received (CommandEvent.frame (err e)) = 0
ping_received (CommandEvent.frame panic) = 0
ping_received CommandEvent.end_of_stream = 0

abbrev pub timer_fired : CommandEvent → ℕ
timer_fired CommandEvent.ping_due = 1
timer_fired (CommandEvent.frame r) = 0
timer_fired CommandEvent.end_of_stream = 0

pub total : (CommandEvent → ℕ) → Events → ℕ
total kind [] = 0
total kind ((event, written) ∷ events) = kind event + total kind events

count-append :
    (kind : FrameV1 → ℕ) (xs ys : List FrameV1)
    → count kind (xs ++ ys) ≡ count kind xs + count kind ys
unfolding count
count-append kind [] ys = omega arith
count-append kind (x ∷ xs) ys = omega (arith, count-append kind xs ys)

-- While the server's command stream runs, it has answered each ping that it received with one
-- pong, and has sent one ping for each time that its timer fired.
pub server_answers :
    (events : Events)
    → (handle_server_protocol_v1_command_stream events).outcome ≡ none
    → (count is_pong (handle_server_protocol_v1_command_stream events).sent
        ≡ total ping_received events)
      × (count is_ping (handle_server_protocol_v1_command_stream events).sent
          ≡ total timer_fired events)
unfolding handle_server_protocol_v1_command_stream after_turn count total
server_answers [] h = (refl, refl)
server_answers ((CommandEvent.ping_due, ok _) ∷ events) h = omega (arith, server_answers events h)
server_answers ((CommandEvent.ping_due, err e) ∷ events) h = cc
server_answers ((CommandEvent.ping_due, panic) ∷ events) h = cc
server_answers ((CommandEvent.frame (ok ping), ok _) ∷ events) h =
    omega (arith, server_answers events h)
server_answers ((CommandEvent.frame (ok ping), err e) ∷ events) h = cc
server_answers ((CommandEvent.frame (ok ping), panic) ∷ events) h = cc
server_answers ((CommandEvent.frame (ok pong), written) ∷ events) h =
    omega (arith, server_answers events h)
server_answers ((CommandEvent.frame (ok (auth _ _)), written) ∷ events) h =
    omega (arith, server_answers events h)
server_answers ((CommandEvent.frame (ok (authenticated _ _)), written) ∷ events) h =
    omega (arith, server_answers events h)
server_answers ((CommandEvent.frame (err e), written) ∷ events) h = cc
server_answers ((CommandEvent.frame panic, written) ∷ events) h = cc
server_answers ((CommandEvent.end_of_stream, written) ∷ events) h = cc

-- Every write succeeds.
abbrev pub AllWritten : Events → Type 0
AllWritten [] = Unit
AllWritten ((event, written) ∷ events) = (written ≡ ok tt) × AllWritten events

-- Two runs that wrote the same, and of which the one goes on exactly if the other does.
pub record Together (a b : Run) : Type 0 where
  pub sent : a.sent ≡ b.sent
  pub forth : a.outcome ≡ none → b.outcome ≡ none
  pub back : b.outcome ≡ none → a.outcome ≡ none

-- On the same events, with every write succeeding, the client's and the server's command streams
-- write the same frames, and the one still runs exactly if the other does.
pub same_frames :
    (events : Events)
    → AllWritten events
    → Together
        (handle_client_protocol_v1_command_stream events)
        (handle_server_protocol_v1_command_stream events)
unfolding handle_server_protocol_v1_command_stream handle_client_protocol_v1_command_stream
    after_turn
same_frames [] h = record { sent = refl; forth = λ e. e; back = λ e. e }
same_frames ((CommandEvent.ping_due, ok _) ∷ events) h =
    let ih = same_frames events h.1 in
    record { sent = ap (λ l. ping ∷ l) ih.sent; forth = ih.forth; back = ih.back }
same_frames ((CommandEvent.frame (ok ping), ok _) ∷ events) h =
    let ih = same_frames events h.1 in
    record { sent = ap (λ l. pong ∷ l) ih.sent; forth = ih.forth; back = ih.back }
same_frames ((CommandEvent.frame (ok pong), written) ∷ events) h =
    let ih = same_frames events h.1 in record { sent = ih.sent; forth = ih.forth; back = ih.back }
same_frames ((CommandEvent.frame (ok (auth _ _)), written) ∷ events) h =
    let ih = same_frames events h.1 in record { sent = ih.sent; forth = ih.forth; back = ih.back }
same_frames ((CommandEvent.frame (ok (authenticated _ _)), written) ∷ events) h =
    let ih = same_frames events h.1 in record { sent = ih.sent; forth = ih.forth; back = ih.back }
same_frames ((CommandEvent.frame (err e), written) ∷ events) h = record {
  sent = refl;
  forth = λ c. cc;
  back = λ c. cc;
}
same_frames ((CommandEvent.frame panic, written) ∷ events) h = record {
  sent = refl;
  forth = λ c. cc;
  back = λ c. cc;
}
same_frames ((CommandEvent.end_of_stream, written) ∷ events) h = record {
  sent = refl;
  forth = λ c. cc;
  back = λ c. cc;
}
same_frames ((event, err e) ∷ events) h = cc (h.0)
same_frames ((event, panic) ∷ events) h = cc (h.0)
