-- ===== src/Examples/Routing.antt =====
-- Tunnels, ingresses and byte counters at concrete inputs.
use siffleux.Prelude.{
  All, true, false, inr, inl, ◌++◌, zero, suc, suc, bytes_beq, ℕ, ◌≡◌, ◌<◌, ◌+◌, ◌%◌, ◌⊎◌, [], ◌∷◌,
  arith, some, none, refl, true, length, get_elem?,
}
use siffleux.Error.{ok, err, ingress_no_tunnel_connected}
use siffleux.Tunnel.{Tunnel}
use siffleux.ByteCounter.{parent_of, Counters}
use siffleux.ByteCounter.Chain
use siffleux.ByteCounter.Chain.{add_bytes_read-OnChain, OnChain, bump}
use siffleux.Ingress.Pool.{push, Pool, get_tunnel_to_connect, on_closed}
use siffleux.Ingress.Pool.Rotation.{slot, after, balanced}
use siffleux.Ingress.Pool.Removal.{count}
use siffleux.Ingress.Pool.Race.{Life, Reach, Step, fresh, held, watched_after_push, stale_tunnel}
use siffleux.Ingress.Tcp
use siffleux.Ingress.Tcp.{TcpIngress}
use mathlib.Core.List.{List, Memᴰ}
use siffleux.Ingress.Tcp.Lifecycle.{handle_stream_total}
use siffleux.Ingress.Tcp.Accept.{accepted, accept_failed, accept_turn}
use siffleux.Ingress.Tcp.Loops.{
  TcpCall, accepts, starts, stops, Spares, call_all, stop_keeps_accepting,
}
use siffleux.Ingress.Udp.{UdpIngress}
use siffleux.Egress.Sockets.{addr_eq}
use siffleux.Examples.Data.{key, web, first, second, two, second_id, loopback}

abbrev pool : Pool
pool = record { tunnels = two; tunnel_rotation = 5 }

abbrev only_first : Pool
only_first = record { tunnels = first ∷ []; tunnel_rotation = 5 }

balanced_example :
    (k : ℕ) × (k < length pool.tunnels)
    × ((t : Tunnel) × (get_elem? pool.tunnels 0 ≡ some t)
        × ((get_tunnel_to_connect (after k pool)).0 ≡ ok (some t)))
    × ((j : ℕ)
        → j < length pool.tunnels
        → (pool.tunnel_rotation + j) % length pool.tunnels ≡ 0
        → j ≡ k)
balanced_example = balanced pool 0 (omega arith) (omega arith) (omega arith)

absent : count second_id only_first.tunnels ≡ 0
unfolding count bytes_beq
absent = refl

abbrev pushed : Life
pushed = record (fresh only_first) { pool = push second only_first; pushed = true }

once_pushed : Reach second (fresh only_first) pushed
once_pushed = Reach.next Reach.here (Step.pushes (fresh only_first) refl)

watched_after_push_example :
    (held second pushed ≡ 1) × (count second_id (on_closed second pushed.pool).tunnels ≡ 0)
watched_after_push_example =
    watched_after_push second only_first pushed absent once_pushed refl refl

stale_tunnel_example :
    (s : Life) × Reach second (fresh only_first) s
    × (s.ended ≡ true)
    × ((s' : Life) → Reach second s s' → held second s' ≡ 1)
stale_tunnel_example = stale_tunnel second only_first absent

abbrev tcp : TcpIngress
tcp = record {
  id = web;
  auth_key = key;
  socket_addr = loopback;
  pool = pool;
  tcp_listener = none;
  tcp_listener_socket_addr = none;
  listeners = [];
  watchers = two;
}

-- A connection is accepted, the ingress is started over another listener, whose loop ends, and is stopped again.
abbrev after_stop : List TcpCall
after_stop =
    accepts 3 true (accepted (ok loopback))
    ∷ starts (ok (4, ok loopback))
    ∷ accepts 4 false accept_failed
    ∷ stops
    ∷ []

three_spared : All (Spares 3) after_stop
unfolding accept_turn
three_spared = (inr refl, (tt, (inl (λ h. cc h), (tt, tt))))

stop_keeps_accepting_example :
    let ended = (Tcp.stop (Tcp.start (ok (3, ok loopback)) tcp).1).1 in
    (ended.tcp_listener ≡ none)
    × (Tcp.socket_addr ended ≡ some loopback)
    × Memᴰ 3 (call_all after_stop ended).listeners
stop_keeps_accepting_example = stop_keeps_accepting tcp 3 loopback after_stop refl three_spared

abbrev counters : Counters
counters =
    record { parent = none; bytes_write = 0; bytes_read = 0 }
    ∷ record { parent = some 0; bytes_write = 0; bytes_read = 4 }
    ∷ []

handle_stream_total_example :
    ((Tcp.handle_stream (ok loopback) (ok 9) tcp counters).ingress.pool.tunnels ≡ two)
    × (((length two ≡ 0)
          × ((Tcp.handle_stream (ok loopback) (ok 9) tcp counters).result
              ≡ err ingress_no_tunnel_connected)
          × ((Tcp.handle_stream (ok loopback) (ok 9) tcp counters).counters ≡ counters))
        ⊎ ((t : Tunnel) × (get_elem? two (slot 5 2) ≡ some t)
            × ((Tcp.handle_stream (ok loopback) (ok 9) tcp counters).result
                ≡ ok (loopback, record { id = 9; byte_counter = length counters }))
            × ((Tcp.handle_stream (ok loopback) (ok 9) tcp counters).counters
                ≡ counters
                  ++ (record { parent = some t.byte_counter; bytes_write = 0; bytes_read = 0 }
                      ∷ []))))
handle_stream_total_example = handle_stream_total tcp loopback 9 counters

counters-IsWellFormed : Chain.IsWellFormed counters
unfolding parent_of
counters-IsWellFormed = record { before = before }
  where
    before : (i p : ℕ) → parent_of i counters ≡ some p → p < i
    before zero p h = cc
    before (suc zero) p h = ground arith
    before (suc (suc i)) p h = cc

abbrev udp : UdpIngress
udp = record {
  id = web;
  auth_key = key;
  socket_addr = loopback;
  pool = pool;
  udp_socket = none;
  cancelled = [];
  readers = [];
  loops = [];
  watchers = [];
}
