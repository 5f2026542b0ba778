-- ===== src/Examples/Traffic.antt =====
-- Datagrams, counters, pools and buffers at concrete inputs.
use siffleux.Prelude.{
  All, zero, suc, ◌<◌, ℕ, ◌≡◌, refl, inr, true, none, some, List, [], ◌∷◌, ◌++◌, arith, lookup,
}
use siffleux.Error.{ok, closed_tunnel, err}
use siffleux.Frames.{auth, ping, encode}
use siffleux.Frames.Streams.{IsPart, encode_all, decode_all, decode_all-encode_all}
use siffleux.ByteCounter.{Counters, parent_of, bytes_read, bytes_write}
use siffleux.ByteCounter.Chain.{IsWellFormed}
use siffleux.ByteCounter.History.{Count, read, write, Shown}
use siffleux.ByteCounter.Totals.{shows-Total}
use siffleux.Ingress.Pool.{Pool, get_tunnel_to_connect}
use siffleux.Ingress.Pool.Refine.{
  PoolStep, assigned, ended, picked, pool_run, bag_run, view, PicksFrom, pool_run-Bag,
}
use mathlib.Core.List.{Memᴰ}
use siffleux.Ingress.Udp
use siffleux.Ingress.Udp.{UdpIngress}
use siffleux.Ingress.Udp.Lifecycle.{
  UdpCall, starts, stops, assigns, ends, call, call_all, no_socket_no_task,
}
use siffleux.Egress.Sockets.{addr_eq}
use siffleux.Egress.Sockets.Flows.{IsBounded}
use siffleux.Egress.Tunnelling.{connecting, task_run}
use siffleux.Egress.Udp.{
  UdpTask, UdpEvent, connect_result, slept, datagram_received, tunnel_closed, no_sockets, udp_run,
}
use siffleux.Egress.Udp.Task.{all_seen, phase-udp_run}
use siffleux.System.Datagrams.{Answered, datagram-Answered}
use siffleux.Examples.Data.{key, web, key-IsValid, web-IsValid, loopback, first, second, two}

abbrev dns : UdpIngress
dns = record {
  id = web;
  auth_key = key;
  socket_addr = loopback;
  pool = record { tunnels = two; tunnel_rotation = 1 };
  udp_socket = some (3, 3);
  cancelled = [];
  readers = [];
  loops = [];
  watchers = [];
}

no_channel : lookup loopback no_sockets.udp_sockets ≡ none
unfolding lookup
no_channel = refl

datagram-Answered_example :
    Answered dns no_sockets loopback (7 ∷ 8 ∷ []) (9 ∷ []) (7 ∷ 8 ∷ 0 ∷ []) (9 ∷ 0 ∷ []) 2 1
datagram-Answered_example =
    datagram-Answered dns no_sockets loopback (7 ∷ 8 ∷ 0 ∷ []) (9 ∷ 0 ∷ []) 2 1 refl (omega arith)
      (omega arith) (omega arith) no_channel

-- A server's counter, a tunnel's and a stream's.
abbrev three : Counters
three =
    record { parent = none; bytes_write = 0; bytes_read = 5 }
    ∷ record { parent = some 0; bytes_write = 1; bytes_read = 5 }
    ∷ record { parent = some 1; bytes_write = 0; bytes_read = 0 }
    ∷ []

three_before : (i p : ℕ) → parent_of i three ≡ some p → p < i
unfolding parent_of
three_before zero p h = cc
three_before (suc zero) p h = let e : 0 ≡ p = cc in omega (arith, e)
three_before (suc (suc zero)) p h = let e : 1 ≡ p = cc in omega (arith, e)
three_before (suc (suc (suc i))) p h = cc

three-IsWellFormed : IsWellFormed three
three-IsWellFormed = record { before = three_before }

abbrev history : List Count
history = read 2 10 ∷ write 0 3 ∷ read 0 4 ∷ write 2 6 ∷ []

reads : bytes_read 1 three ≡ some 5
unfolding bytes_read
reads = refl

writes : bytes_write 1 three ≡ some 1
unfolding bytes_write
writes = refl

shows-Total_example : Shown 3 1 5 1 history three
shows-Total_example =
    shows-Total 3 1 5 1 history three three-IsWellFormed
      (omega arith, (omega arith, (omega arith, (omega arith, tt)))) reads writes

abbrev steps : List PoolStep
steps = assigned second ∷ picked ∷ ended first ∷ picked ∷ []

abbrev one_tunnel : Pool
one_tunnel = record { tunnels = first ∷ []; tunnel_rotation = 0 }

pool_run-Bag_example :
    (view (pool_run steps one_tunnel) ≡ bag_run steps (view one_tunnel))
    × PicksFrom
        (bag_run steps (view one_tunnel))
        (get_tunnel_to_connect (pool_run steps one_tunnel)).0
pool_run-Bag_example = pool_run-Bag steps one_tunnel

asks-IsPart : IsPart (auth key web) (0 ∷ 0 ∷ 8 ∷ 3 ∷ 107 ∷ [])
unfolding encode
asks-IsPart = record {
  back = 101 ∷ 121 ∷ 3 ∷ 119 ∷ 101 ∷ 98 ∷ [];
  whole = refl;
  missing = omega arith;
  header = inr (omega arith);
}

decode_all-encode_all_example :
    decode_all 3 (encode_all (ping ∷ auth key web ∷ []) [] ++ (0 ∷ 0 ∷ 8 ∷ 3 ∷ 107 ∷ []))
    ≡ (ok (ping ∷ auth key web ∷ []), 0 ∷ 0 ∷ 8 ∷ 3 ∷ 107 ∷ [])
decode_all-encode_all_example =
    decode_all-encode_all 3 (ping ∷ auth key web ∷ []) (auth key web) (0 ∷ 0 ∷ 8 ∷ 3 ∷ 107 ∷ [])
      (omega arith) (tt, ((key-IsValid, web-IsValid), tt)) (key-IsValid, web-IsValid) asks-IsPart

abbrev idle_task : UdpTask
idle_task = record { phase = connecting 0; sockets = no_sockets }

abbrev events : List UdpEvent
events =
    connect_result (err closed_tunnel)
    ∷ slept
    ∷ connect_result (ok first)
    ∷ datagram_received (ok (0 ∷ 127 ∷ 0 ∷ 0 ∷ 1 ∷ 1 ∷ 2 ∷ 9 ∷ []))
    ∷ tunnel_closed
    ∷ []

phase-udp_run_example :
    (udp_run true idle_task events).phase
    ≡ task_run true (connecting 0) (all_seen true idle_task events)
phase-udp_run_example = phase-udp_run true idle_task events

idle_task-IsBounded : IsBounded no_sockets
unfolding lookup
idle_task-IsBounded = record { at = λ o c h. cc }

-- A second start is refused, and the ingress stops.
abbrev short_life : List UdpCall
short_life =
    starts (ok (7, ok loopback))
    ∷ assigns first
    ∷ starts (ok (8, ok loopback))
    ∷ stops
    ∷ ends first
    ∷ []

is_stopped : (call_all short_life (Udp.new web key loopback)).udp_socket ≡ none
unfolding call_all call Udp.new Udp.start Udp.stop Udp.bind Udp.assign_tunnel
is_stopped = refl

no_socket_no_task_example :
    All
      (λ l. Memᴰ l.1 (call_all short_life (Udp.new web key loopback)).cancelled)
      (call_all short_life (Udp.new web key loopback)).loops
    × All
        (λ r. Memᴰ r.2 (call_all short_life (Udp.new web key loopback)).cancelled)
        (call_all short_life (Udp.new web key loopback)).readers
no_socket_no_task_example = no_socket_no_task web key loopback short_life is_stopped
