-- ===== src/Examples/Egresses.antt =====
-- Egresses and their sockets at concrete inputs.
use siffleux.Protocol.Copying.{shutdown}
use siffleux.Egress.Streams.{AllFail, gives_up, handle_stream}
use siffleux.Egress.Binding.{Os, get_tcp_socket}
use siffleux.Egress.Binding.Served.{FirstServed, Serving, IsAnswering, stream_served}
use siffleux.Bytes.{get_u8, get_u16, split_to}
use siffleux.Prelude.{
  zero, suc, false, bytes_beq, insert, ◌++◌, ℕ, ◌≡◌, ◌⊎◌, List, [], ◌∷◌, arith, some, none, refl,
  true, lookup,
}
use siffleux.Error.{Result, closed_stream, ok, err}
use siffleux.Frames.{
  SocketAddr, extract_origin, extract_ipv4, to_datagram, extract_origin_socket_addr_from_datagram,
}
use siffleux.Egress.Lifecycle.{Egress}
use siffleux.Egress.Tunnelling.{
  task_run, tunnelling, waiting, tunnel_closed, refused, stopped, ready,
}
use siffleux.Egress.Tunnelling.Retries.{lost_tunnel_retries, failures}
use siffleux.Egress.Lifecycle.Calls.{Calls}
use siffleux.Egress.Sockets.{Channel, Sockets, process_datagram, try_send, addr_beq, addr_eq}
use siffleux.Egress.Sockets.Flows.{Flow, datagram_flow, IsBounded}
use siffleux.Egress.Sockets.Expiry
use siffleux.Egress.Sockets.Expiry.{
  Origins, OriginStep, OriginReach, set_channel, no_origins, expires_dead,
}
use siffleux.Examples.Data.{web, loopback}

lost_tunnel_retries_example :
    task_run true tunnelling (tunnel_closed ∷ (failures 3 ++ (refused ∷ []))) ≡ waiting 3 800
lost_tunnel_retries_example = lost_tunnel_retries true 3 (omega arith)

abbrev idle_egress : Egress
idle_egress = record {
  id = record { value = 101 ∷ [] };
  ingress_id = web;
  target_addr = loopback;
  process = none;
  process_lock = false;
  state = stopped;
  spawned = [];
  cancelled = [];
}

abbrev running_egress : Egress
running_egress = record idle_egress { process = some 1; state = ready; spawned = 1 ∷ [] }

abbrev no_sockets : Sockets
no_sockets = record { udp_sockets = []; spawned = [] }

datagram_flow_example :
    (d : List ℕ) × (s' : Sockets) × (to_datagram loopback (1 ∷ 2 ∷ []) 1 ≡ ok d)
    × (process_datagram d no_sockets ≡ ok s')
    × Flow loopback (1 ∷ []) no_sockets s'
    × ((j : SocketAddr)
        → (loopback ≡ j) ⊎ (lookup j s'.udp_sockets ≡ lookup j no_sockets.udp_sockets))
datagram_flow_example = datagram_flow loopback (1 ∷ 2 ∷ []) 1 no_sockets refl (omega arith)

abbrev one_socket : Sockets
one_socket = record {
  udp_sockets = (loopback, record { queue = (9 ∷ []) ∷ []; open_end = true }) ∷ [];
  spawned = loopback ∷ [];
}

no_sockets-IsBounded : IsBounded no_sockets
unfolding lookup
no_sockets-IsBounded = record { at = λ o c h. cc }

opens_socket : process_datagram (0 ∷ 127 ∷ 0 ∷ 0 ∷ 1 ∷ 31 ∷ 144 ∷ 9 ∷ []) no_sockets ≡ ok one_socket
unfolding process_datagram extract_origin_socket_addr_from_datagram extract_origin extract_ipv4
    get_u8 get_u16 split_to lookup insert try_send
opens_socket = refl

holds_socket :
    lookup loopback one_socket.udp_sockets
    ≡ some (record { queue = (9 ∷ []) ∷ []; open_end = true })
unfolding lookup addr_beq bytes_beq
holds_socket = refl

abbrev opened : Origins
opened = record { sockets = one_socket; expired = []; process_cancelled = false }

abbrev idle_for_long : Origins
idle_for_long = record {
  sockets = set_channel loopback (record { queue = []; open_end = false }) one_socket;
  expired = loopback ∷ [];
  process_cancelled = false;
}

goes_idle : OriginReach no_origins idle_for_long
goes_idle =
    OriginReach.next
      (OriginReach.next OriginReach.here (
        OriginStep.datagram no_origins (0 ∷ 127 ∷ 0 ∷ 0 ∷ 1 ∷ 31 ∷ 144 ∷ 9 ∷ []) one_socket
          opens_socket))
      (OriginStep.task_ends opened loopback (record { queue = (9 ∷ []) ∷ []; open_end = true })
        holds_socket refl)

expires_dead_example :
    ((Expiry.count loopback (loopback ∷ []) ≡ 0)
      × (lookup loopback idle_for_long.sockets.udp_sockets ≡ none))
    ⊎ ((c : Channel) × (lookup loopback idle_for_long.sockets.udp_sockets ≡ some c)
        × (((c.open_end ≡ true) × (Expiry.count loopback (loopback ∷ []) ≡ 0))
            ⊎ ((c.open_end ≡ false)
                × ((Expiry.count loopback (loopback ∷ []) ≡ 1)
                    ⊎ ((idle_for_long.process_cancelled ≡ true)
                        × (Expiry.count loopback (loopback ∷ []) ≡ 0))))))
expires_dead_example = expires_dead idle_for_long loopback goes_idle

-- The first attempt is refused its socket, and the later ones get one.
abbrev first_refused : ℕ → Os
first_refused zero = record { socket = λ _. err closed_stream; call = λ _ _. ok tt }
first_refused (suc j) = record { socket = λ _. ok 5; call = λ _ _. ok tt }

first_refused-IsAnswering : (j : ℕ) → IsAnswering (first_refused j)
first_refused-IsAnswering zero = record {
  socket_answers = λ _ h. cc h;
  call_answers = λ _ _ h. cc h;
}
first_refused-IsAnswering (suc j) = record {
  socket_answers = λ _ h. cc h;
  call_answers = λ _ _ h. cc h;
}

abbrev attempts : ℕ → Result ℕ
attempts j = get_tcp_socket (first_refused j)

stream_served_example :
    ((s : ℕ) × FirstServed 3 0 first_refused s
      × Serving s (ok (ok loopback)) (handle_stream attempts (λ _. ok (ok loopback))))
    ⊎ (AllFail 3 0 attempts
        × (handle_stream attempts (λ _. ok (ok loopback)) ≡ gives_up (shutdown ∷ [])))
stream_served_example =
    stream_served first_refused (λ _. ok (ok loopback)) first_refused-IsAnswering
