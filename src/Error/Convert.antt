-- ===== src/Error/Convert.antt =====
-- siffleux/src/common/error.rs: the `From` implementations, and common/code.rs.
use siffleux.Prelude.{ℕ, String, ◌==◌, if◌then◌else◌}
use siffleux.Error.Transport.{
  ConnectionError, ReadError, WriteError, ReadExactError, ReadToEndError, IoError, Error,
  closed_tunnel, closed_stream, rejected_auth_key, rejected_ingress_id, unknown, tls, io,
  read_exact_cause, read_cause, read_to_end_cause, write_cause, connect_cause, rustls_cause,
  cipher_suite_cause, connection_cause, transport_cause, utf8_cause, io_cause, uuid_cause,
  join_cause, poison_lock,
}

abbrev pub connection_eof : ℕ
connection_eof = 0

abbrev pub command_stream_closed : ℕ
command_stream_closed = 1

abbrev pub rejected_auth_key_code : ℕ
rejected_auth_key_code = 400

abbrev pub rejected_ingress_id_code : ℕ
rejected_ingress_id_code = 401

abbrev pub stream_eof : ℕ
stream_eof = 2000

abbrev pub unexpected_frame_received_code : ℕ
unexpected_frame_received_code = 3001

abbrev pub frame_not_received_on_time_code : ℕ
frame_not_received_on_time_code = 3002

abbrev pub unknown_error_code : ℕ
unknown_error_code = 3999

abbrev pub unknown_error_server_reason : String
unknown_error_server_reason = "Unknown server side issue."

abbrev pub unknown_error_client_reason : String
unknown_error_client_reason = "Unknown client side issue."

abbrev pub certificate_hash_mismatch_code : ℕ
certificate_hash_mismatch_code = 296

unfoldable pub from_connection_error : ConnectionError → Error
from_connection_error (ConnectionError.application_closed code reason) =
    if code == connection_eof
    then closed_tunnel
    else if code == rejected_auth_key_code
    then rejected_auth_key
    else if code == rejected_ingress_id_code
    then rejected_ingress_id
    else unknown (connection_cause (ConnectionError.application_closed code reason))
from_connection_error (ConnectionError.transport_error code) =
    if code == certificate_hash_mismatch_code
    then tls (transport_cause code)
    else unknown (transport_cause code)
from_connection_error ConnectionError.locally_closed = closed_tunnel
from_connection_error (ConnectionError.other n) =
    unknown (connection_cause (ConnectionError.other n))

unfoldable pub from_read_error : ReadError → Error
from_read_error (ReadError.connection_lost e) = from_connection_error e
from_read_error (ReadError.other n) = unknown (read_cause (ReadError.other n))

unfoldable pub from_write_error : WriteError → Error
from_write_error (WriteError.connection_lost e) = from_connection_error e
from_write_error (WriteError.other n) = unknown (write_cause (WriteError.other n))

unfoldable pub from_read_exact_error : ReadExactError → Error
from_read_exact_error (ReadExactError.read_error e) = from_read_error e
from_read_exact_error (ReadExactError.other n) = unknown (read_exact_cause (ReadExactError.other n))

unfoldable pub from_read_to_end_error : ReadToEndError → Error
from_read_to_end_error (ReadToEndError.read e) = from_read_error e
from_read_to_end_error (ReadToEndError.other n) =
    unknown (read_to_end_cause (ReadToEndError.other n))

unfoldable pub from_io_error : IoError → Error
from_io_error (IoError.wraps_write e) = from_write_error e
from_io_error (IoError.wraps_read e) = from_read_error e
from_io_error (IoError.plain n) = io (io_cause n)

-- The sources of these are boxed without being looked into.
unfoldable pub from_connect_error : ℕ → Error
from_connect_error n = unknown (connect_cause n)

unfoldable pub from_rustls_error : ℕ → Error
from_rustls_error n = tls (rustls_cause n)

unfoldable pub from_closed_stream : Error
from_closed_stream = closed_stream

unfoldable pub from_no_initial_cipher_suite : Error
from_no_initial_cipher_suite = unknown cipher_suite_cause

unfoldable pub from_utf8_error : Error
from_utf8_error = unknown utf8_cause

unfoldable pub from_uuid_error : Error
from_uuid_error = unknown uuid_cause

unfoldable pub from_join_error : ℕ → Error
from_join_error n = unknown (join_cause n)

-- The text is the lock's own message.
unfoldable pub from_poison_error : String → Error
from_poison_error message = poison_lock message
