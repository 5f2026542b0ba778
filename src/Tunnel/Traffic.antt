-- ===== src/Tunnel/Traffic.antt =====
-- siffleux/src/common/tunnel.rs: the bytes of a stream are counted at its tunnel.
use siffleux.Prelude.{true, ℕ, ◌<◌, ◌≡◌, refl, inl, inr, some, List, length, arith}
use siffleux.Error.{ok}
use siffleux.ByteCounter
use siffleux.ByteCounter.{Counter, Counters, parent_of, bytes_read, bytes_write}
use siffleux.ByteCounter.Chain.{
  IsWellFormed, OnChain, bump, get_elem?-append_one, add_bytes_read-OnChain, new-IsWellFormed,
}
use siffleux.Tunnel.{Tunnel, TunnelStream, new_stream, inspect_read, create_stream}

-- The counter of a new stream.
abbrev stream_counter : Tunnel → Counter
stream_counter tunnel = record {
  parent = some tunnel.byte_counter;
  bytes_write = 0;
  bytes_read = 0;
}

parent-new :
    (tunnel : Tunnel) (cs : Counters)
    → parent_of (length cs) (ByteCounter.new (some tunnel.byte_counter) cs).1
      ≡ some tunnel.byte_counter
unfolding ByteCounter.new parent_of
parent-new tunnel cs = ground (arith, get_elem?-append_one cs (length cs) (stream_counter tunnel))

-- When a tunnel whose counter exists opens a stream, and bytes are read from the stream, the tunnel's counter shows so many
-- bytes more, modulo 2 ^ 64; any fuel above the number of the counters is enough.
pub read-create_stream :
    (fuel id : ℕ) (tunnel : Tunnel) (cs : Counters) (bytes : List ℕ)
    → IsWellFormed cs
    → tunnel.byte_counter < length cs
    → length cs < fuel
    → (stream : TunnelStream) × ((create_stream (ok id) tunnel cs).0 ≡ ok stream)
      × (bytes_read tunnel.byte_counter
            (inspect_read fuel stream bytes (create_stream (ok id) tunnel cs).1)
          ≡ bump true
              (length bytes)
              (bytes_read tunnel.byte_counter (create_stream (ok id) tunnel cs).1))
unfolding create_stream inspect_read new_stream ByteCounter.new
read-create_stream fuel id tunnel cs bytes w known enough =
    let cs' = (ByteCounter.new (some tunnel.byte_counter) cs).1 in
    let (w', _) = new-IsWellFormed (some tunnel.byte_counter) cs w (λ p e. ground arith) in
    let chain = OnChain.up (parent-new tunnel cs) OnChain.here in
    (
      record { id = id; byte_counter = length cs },
      refl,
      elim (add_bytes_read-OnChain fuel (length cs) tunnel.byte_counter (length bytes) cs' w'
          enough) [ inl (_, e) ↦ e | inr (off, _) ↦ absurd (off chain) ],
    )
