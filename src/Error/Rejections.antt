-- ===== src/Error/Rejections.antt =====
-- siffleux/src/common/error.rs: what a peer makes of a close of the connection.
use siffleux.Prelude.{◌≡◌, arith}
use siffleux.Error.Transport.{
  ConnectionError, ReadError, WriteError, ReadExactError, ReadToEndError, IoError,
}
use siffleux.Error.Convert.{
  from_connection_error, from_read_error, from_write_error, from_read_exact_error,
  from_read_to_end_error, from_io_error,
}

-- However deep a lost connection is wrapped on its way up (an exact read, a read to the end, a
-- plain read, a write, or an io error around a read or a write), the conversion gives the same
-- error as converting the connection's own error.
pub from_wrapped_connection_error :
    (e : ConnectionError)
    → (from_read_exact_error (ReadExactError.read_error (ReadError.connection_lost e))
        ≡ from_connection_error e)
      × (from_read_to_end_error (ReadToEndError.read (ReadError.connection_lost e))
          ≡ from_connection_error e)
      × (from_io_error (IoError.wraps_read (ReadError.connection_lost e)) ≡ from_connection_error e)
      × (from_io_error (IoError.wraps_write (WriteError.connection_lost e))
          ≡ from_connection_error e)
unfolding from_read_exact_error from_read_to_end_error from_io_error from_read_error
    from_write_error
from_wrapped_connection_error e = ground arith
