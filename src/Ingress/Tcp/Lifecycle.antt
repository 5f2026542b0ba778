-- ===== src/Ingress/Tcp/Lifecycle.antt =====
-- siffleux/src/server/ingress/tcp_ingress.rs: starting, stopping and serving a connection.
use siffleux.Prelude.{ℕ, ◌≡◌, ◌⊎◌, inl, inr, none, some, [], ◌∷◌, ◌++◌, arith, length, get_elem?}
use siffleux.Error.{
  ok, err, ingress_already_listening, ingress_not_listening, ingress_no_tunnel_connected,
}
use siffleux.Frames.{SocketAddr}
use siffleux.Tunnel
use siffleux.Tunnel.{Tunnel}
use siffleux.ByteCounter
use siffleux.ByteCounter.{Counters}
use siffleux.Ingress.Pool
use siffleux.Ingress.Pool.Rotation.{slot, get_tunnel_total}
use siffleux.Ingress.Tcp.{TcpIngress, start, stop, handle_stream, with_tunnel, open_stream}

-- An ingress that does not listen starts when its address is bound, refuses to start twice and changes
-- nothing by it, then stops, refuses to stop twice, and can be started again.
pub start-stop :
    (s : TcpIngress) (l : ℕ) (a : SocketAddr)
    → s.tcp_listener ≡ none
    → let started = (start (ok (l, ok a)) s).1 in
      let stopped = (stop started).1 in
      ((start (ok (l, ok a)) s).0 ≡ ok tt)
      × (start (ok (l, ok a)) started ≡ (err ingress_already_listening, started))
      × ((stop started).0 ≡ ok tt)
      × (stop stopped ≡ (err ingress_not_listening, stopped))
      × ((start (ok (l, ok a)) stopped).0 ≡ ok tt)
unfolding start stop
start-stop s l a h = (ground arith, ground arith, ground arith, ground arith, ground arith)

-- A TCP connection whose peer is known gets a stream in the tunnel whose turn it is, when the tunnel can open
-- one, with a new counter at zero below that tunnel's, behind all other counters, which stay; without any
-- tunnel it is refused, and no counter is made. The tunnels of the ingress stay.
pub handle_stream_total :
    (s : TcpIngress) (remote : SocketAddr) (stream_id : ℕ) (cs : Counters)
    → ((handle_stream (ok remote) (ok stream_id) s cs).ingress.pool.tunnels ≡ s.pool.tunnels)
      × (((length s.pool.tunnels ≡ 0)
            × ((handle_stream (ok remote) (ok stream_id) s cs).result
                ≡ err ingress_no_tunnel_connected)
            × ((handle_stream (ok remote) (ok stream_id) s cs).counters ≡ cs))
          ⊎ ((t : Tunnel) × (get_elem? s.pool.tunnels
                  (slot s.pool.tunnel_rotation (length s.pool.tunnels))
                ≡ some t)
              × ((handle_stream (ok remote) (ok stream_id) s cs).result
                  ≡ ok (remote, record { id = stream_id; byte_counter = length cs }))
              × ((handle_stream (ok remote) (ok stream_id) s cs).counters
                  ≡ cs
                    ++ (record { parent = some t.byte_counter; bytes_write = 0; bytes_read = 0 }
                        ∷ []))))
unfolding handle_stream with_tunnel open_stream Tunnel.new_stream ByteCounter.new
    Pool.get_tunnel_to_connect
handle_stream_total s remote stream_id cs = elim (get_tunnel_total s.pool) [
  | inl (e, f) ↦ (ground (arith, f), inl (e, ground (arith, f), ground (arith, f)))
  | inr (t, at, got, kept) ↦ (kept, inr (t, at, ground (arith, got), ground (arith, got)))
]
