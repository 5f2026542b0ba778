-- ===== src/Examples/Sessions.antt =====
-- Handshakes, the registry and the command streams at concrete inputs.
use siffleux.Prelude.{ap, lookup, ◌≡◌, [], ◌∷◌, arith, some, none, inl, refl, bytes_beq}
use siffleux.Error.{ok, err, Error}
use siffleux.Ids.Names.{ingress_id_beq_iff}
use siffleux.Frames.{encode, auth, authenticated, ping}
use siffleux.Frames.RoundTrip.{decode-encode}
use siffleux.Ingress.Pool.{empty}
use siffleux.Ingress.Tcp.{TcpIngress, tcp_ingress}
use siffleux.ByteCounter
use siffleux.ByteCounter.{Counters}
use siffleux.Tunnel
use siffleux.Protocol.{AuthEvent, Close, CommandEvent}
use siffleux.Protocol.Loop.{after_turn, Events}
use siffleux.Server.{Server, get_ingress_by_id}
use siffleux.Server.Registry.{IsWellFormed}
use siffleux.Server.Auth.{handle_server_protocol_v1_auth}
use siffleux.Server.Auth.Outcomes.{Accepted, auth_sound}
use siffleux.Server.Connection.{Meeting}
use siffleux.Server.Command.{handle_server_protocol_v1_command_stream}
use siffleux.Client.Auth.{handle_client_protocol_v1_auth}
use siffleux.Client.Command.{handle_client_protocol_v1_command_stream}
use siffleux.Client.Command.Keepalive.{
  timer_fired, ping_received, total, server_answers, same_frames, Together, count, is_ping, is_pong,
}
use siffleux.Handshake.{Delivers, Agreed, handshake_agrees, refusal_known, closed_by_peer}
use siffleux.Examples.Data.{
  key, web, home, first_id, first, key-IsValid, web-IsValid, home-IsValid, loopback,
}

abbrev web_ingress : TcpIngress
web_ingress = record {
  id = web;
  auth_key = key;
  socket_addr = loopback;
  pool = empty;
  tcp_listener = none;
  tcp_listener_socket_addr = none;
  listeners = [];
  watchers = [];
}

abbrev home_server : Server TcpIngress
home_server = record {
  id = home;
  endpoint = none;
  ingress_by_id = (web, web_ingress) ∷ [];
  byte_counter = 0;
  certificate_hash = [];
}

abbrev bare_server : Server TcpIngress
bare_server = record {
  id = home;
  endpoint = none;
  ingress_by_id = [];
  byte_counter = 0;
  certificate_hash = [];
}

abbrev one_counter : Counters
one_counter = record { parent = none; bytes_write = 0; bytes_read = 0 } ∷ []

abbrev asks : AuthEvent
asks = AuthEvent.frame (ok (auth key web))

web_found : get_ingress_by_id web home_server ≡ some web_ingress
unfolding get_ingress_by_id lookup bytes_beq
web_found = refl

none_found : get_ingress_by_id web bare_server ≡ none
unfolding get_ingress_by_id lookup
none_found = refl

accepted :
    (handle_server_protocol_v1_auth home_server 7 first_id (ok tt) one_counter asks).result
    ≡ ok (web_ingress, record first { connection = 7 })
unfolding handle_server_protocol_v1_auth get_ingress_by_id lookup bytes_beq Tunnel.new
    ByteCounter.new
accepted = refl

asked : Delivers (auth key web) asks
unfolding encode
asked = record {
  received = auth key web;
  decoded = ap (λ r. r.0) (decode-encode (auth key web) [] (key-IsValid, web-IsValid));
  yielded = refl;
}

answered :
    Delivers (authenticated first_id home) (AuthEvent.frame (ok (authenticated first_id home)))
unfolding encode
answered = record {
  received = authenticated first_id home;
  decoded = ap (λ r. r.0) (decode-encode (authenticated first_id home) [] (refl, home-IsValid));
  yielded = refl;
}

handshake_agrees_example :
    Agreed web_ingress
      (handle_server_protocol_v1_auth home_server 7 first_id (ok tt) one_counter asks)
      (handle_client_protocol_v1_auth 8 key web 0
        (ok tt)
        (ok tt)
        one_counter
        (AuthEvent.frame (ok (authenticated first_id home))))
handshake_agrees_example =
    handshake_agrees home_server 7 8 0 first_id one_counter one_counter key web web_ingress asks
      (AuthEvent.frame (ok (authenticated first_id home))) (key-IsValid, web-IsValid)
      (refl, home-IsValid) web_found refl asked answered

refusal_known_example :
    (close : Close) × (e : Error) × ((handle_server_protocol_v1_auth bare_server 7 first_id
        (ok tt)
        one_counter
        asks).close
      ≡ some close)
    × ((handle_server_protocol_v1_auth bare_server 7 first_id (ok tt) one_counter asks).result
        ≡ err e)
    × ((handle_client_protocol_v1_auth 8 key web 0
          (ok tt)
          (ok tt)
          one_counter
          (closed_by_peer close)).result
        ≡ err e)
refusal_known_example =
    refusal_known bare_server 7 8 0 first_id (ok tt) one_counter one_counter key web asks
      (key-IsValid, web-IsValid) asked (inl none_found)

auth_sound_example :
    Accepted home_server first_id asks web_ingress
      (record first { connection = 7 })
      (handle_server_protocol_v1_auth home_server 7 first_id (ok tt) one_counter asks)
auth_sound_example =
    auth_sound home_server 7 first_id (ok tt) one_counter asks web_ingress
      (record first { connection = 7 }) accepted

home-IsWellFormed : IsWellFormed home_server
unfolding get_ingress_by_id lookup
home-IsWellFormed = record { keyed = λ k i h. ground (arith, ingress_id_beq_iff web k) }

abbrev meeting : Meeting
meeting = record {
  incoming = ok 7;
  accepted = ok tt;
  tunnel_id = first_id;
  written = ok tt;
  event = asks;
  events = [];
}

abbrev pings : Events
pings =
    (CommandEvent.frame (ok ping), ok tt)
    ∷ (CommandEvent.ping_due, ok tt)
    ∷ (CommandEvent.frame (ok ping), ok tt)
    ∷ []

still_runs : (handle_server_protocol_v1_command_stream pings).outcome ≡ none
unfolding handle_server_protocol_v1_command_stream after_turn
still_runs = refl

server_answers_example :
    (count is_pong (handle_server_protocol_v1_command_stream pings).sent
      ≡ total ping_received pings)
    × (count is_ping (handle_server_protocol_v1_command_stream pings).sent
        ≡ total timer_fired pings)
server_answers_example = server_answers pings still_runs

same_frames_example :
    Together
      (handle_client_protocol_v1_command_stream pings)
      (handle_server_protocol_v1_command_stream pings)
same_frames_example = same_frames pings (refl, (refl, (refl, tt)))
