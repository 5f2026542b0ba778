-- ===== src/Tunnel.antt =====
-- siffleux/src/common/tunnel.rs: a tunnel is a shared handle. The QUIC connection is a number that
-- stands for the handle, and a byte counter is its place among the counters.
pub mod Traffic
use siffleux.Error.{Result, ok, err, panic}
use siffleux.Prelude.{length, List, ℕ, Bool, Option, some, bytes_beq}
use siffleux.Ids.Names.{ServerId}
use siffleux.Frames.{Uuid}
use siffleux.ByteCounter
use siffleux.ByteCounter.{Counters}

pub record Tunnel : Type 0 where
  pub id : Uuid
  pub server_id : ServerId
  pub connection : ℕ
  pub byte_counter : ℕ

-- `Tunnel::new`: the tunnel has a counter of its own below the one that is given.
unfoldable pub new : Uuid → ServerId → ℕ → Option ℕ → Counters → Tunnel × Counters
new id server_id connection parent_byte_counter counters =
    let (byte_counter, counters') = ByteCounter.new parent_byte_counter counters in
    (
      record {
        id = id;
        server_id = server_id;
        connection = connection;
        byte_counter = byte_counter;
      },
      counters',
    )

pub record TunnelStream : Type 0 where
  pub id : ℕ
  pub byte_counter : ℕ

-- `TunnelStream::new`, for each stream that `quinn_stream_to_framed` wraps.
unfoldable pub new_stream : ℕ → Tunnel → Counters → TunnelStream × Counters
new_stream id tunnel counters =
    let (byte_counter, counters') = ByteCounter.new (some tunnel.byte_counter) counters in
    (record { id = id; byte_counter = byte_counter }, counters')

-- What `InspectReader` and `InspectWriter` do with the bytes that pass through a stream. The fuel is that of the
-- counters.
unfoldable pub inspect_read : ℕ → TunnelStream → List ℕ → Counters → Counters
inspect_read fuel stream bytes counters =
    ByteCounter.add_bytes_read fuel stream.byte_counter (length bytes) counters

unfoldable pub inspect_write : ℕ → TunnelStream → List ℕ → Counters → Counters
inspect_write fuel stream bytes counters =
    ByteCounter.add_bytes_write fuel stream.byte_counter (length bytes) counters

-- `opened` is what `open_bi` returns, by the index of the stream, and `accepted` what `accept_bi` does.
unfoldable pub create_stream : Result ℕ → Tunnel → Counters → Result TunnelStream × Counters
unfolding new_stream
create_stream (ok id) tunnel counters =
    let (stream, counters') = new_stream id tunnel counters in (ok stream, counters')
create_stream (err e) tunnel counters = (err e, counters)
create_stream panic tunnel counters = (panic, counters)

unfoldable pub accept_stream : Result ℕ → Tunnel → Counters → Result TunnelStream × Counters
unfolding new_stream
accept_stream (ok id) tunnel counters =
    let (stream, counters') = new_stream id tunnel counters in (ok stream, counters')
accept_stream (err e) tunnel counters = (err e, counters)
accept_stream panic tunnel counters = (panic, counters)

-- `t.id() == u.id()`
abbrev pub same_id : Tunnel → Tunnel → Bool
same_id t u = bytes_beq t.id u.id
