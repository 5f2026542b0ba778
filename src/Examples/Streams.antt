-- ===== src/Examples/Streams.antt =====
-- The copying of a TCP connection, and the client's registry, at concrete inputs.
use mathlib.Core.List.Memᴰ.{head, tail}
use siffleux.Prelude.{List, ◌≡◌, refl, true, false, some, List, [], ◌∷◌, ◌++◌, map}
use siffleux.Error.{ok, err, closed_stream}
use siffleux.Ingress.Tcp.Accept.{still_runs, handle_listener, accepted, panicked, dead_peer_kills}
use siffleux.Ids.Names.{egress_id_eq}
use siffleux.Protocol.Copying.{
  CopyEvent, CopyEvent, begin, copy_turn, copy_run, is_cancelled, tcp_read_closed,
  tcp_to_tunnel_failed, tcp_to_tunnel_sees_token, tunnel_read_closed, tunnel_to_tcp_sees_token,
}
use siffleux.Protocol.Copying.Closing.{cancelled_ends}
use siffleux.Egress.Lifecycle.{Egress}
use siffleux.Egress.Tunnelling.{ready}
use siffleux.Egress.Trait.{lifecycle_egress}
use siffleux.Client.Registry.{Client}
use siffleux.Examples.Data.{web, loopback}

abbrev half_close : List CopyEvent
half_close = tcp_read_closed ∷ tcp_to_tunnel_sees_token ∷ tunnel_read_closed ∷ []

failed : is_cancelled (copy_turn tcp_to_tunnel_failed begin) ≡ true
unfolding is_cancelled copy_turn begin
failed = refl

abbrev ending : List CopyEvent
ending = tunnel_to_tcp_sees_token ∷ tunnel_read_closed ∷ tcp_to_tunnel_sees_token ∷ []

cancelled_ends_example :
    ((copy_run ending (copy_turn tcp_to_tunnel_failed begin)).tcp_to_tunnel.running ≡ false)
    × ((copy_run ending (copy_turn tcp_to_tunnel_failed begin)).tunnel_to_tcp.running ≡ false)
cancelled_ends_example =
    cancelled_ends (copy_turn tcp_to_tunnel_failed begin) ending failed (tail (tail (head refl)))
      (head refl)

abbrev shell : Egress
shell = record {
  id = record { value = 115 ∷ [] };
  ingress_id = web;
  target_addr = loopback;
  process = some 4;
  process_lock = false;
  state = ready;
  spawned = 4 ∷ [];
  cancelled = [];
}

abbrev laptop : Client Egress
laptop = record { egress_by_id = (shell.id, shell) ∷ []; byte_counter = 0 }

dead_peer_kills_example :
    (handle_listener true (
        map (λ a. accepted (ok a)) (loopback ∷ [])
        ++ (accepted (err closed_stream) ∷ (accepted (ok loopback) ∷ [])))
      ≡ record { handled = 1; cancelled = false; end = panicked })
    × (handle_listener false (map accepted (ok loopback ∷ (err closed_stream ∷ [])))
        ≡ record { handled = 2; cancelled = false; end = still_runs })
dead_peer_kills_example =
    dead_peer_kills (loopback ∷ []) closed_stream (accepted (ok loopback) ∷ [])
      (ok loopback ∷ (err closed_stream ∷ []))
