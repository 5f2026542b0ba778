-- ===== src/Frames/Datagram.antt =====
-- siffleux/src/common/frames/v1.rs: `to_datagram` and its inverse.
use siffleux.Prelude.{ℕ, List, [], Option, none, some, ◌==◌, length, take, ltb, if◌then◌else◌}
use siffleux.Bytes.{Reader, pure, ◌>>=◌, get_u8, get_u16, split_to, put_u8, put_u16, put_slice}
use siffleux.Error.{Result, ok, panic}
use siffleux.Frames.Types.{SocketAddr, v4, v6, udp_ipv4_origin, udp_ipv6_origin}

-- The part of `to_datagram` that writes the address.
unfoldable pub origin_header : SocketAddr → List ℕ
unfolding put_u8 put_u16 put_slice
origin_header (v4 octets port) = put_u16 port (put_slice octets (put_u8 udp_ipv4_origin []))
origin_header (v6 octets port flowinfo scope_id) =
    put_u16 port (put_slice octets (put_u8 udp_ipv6_origin []))

-- `&data[..data_size]` panics past the end of the buffer.
unfoldable pub to_datagram : SocketAddr → List ℕ → ℕ → Result (List ℕ)
unfolding origin_header put_slice
to_datagram socket_addr buffer data_size =
    if ltb (length buffer) data_size
    then panic
    else ok (put_slice (take data_size buffer) (origin_header socket_addr))

unfoldable pub extract_ipv4 : Reader (Option SocketAddr)
extract_ipv4 = do octets ← split_to 4; port ← get_u16; pure (some (v4 octets port))

unfoldable pub extract_ipv6 : Reader (Option SocketAddr)
extract_ipv6 = do octets ← split_to 16; port ← get_u16; pure (some (v6 octets port 0 0))

unfoldable pub extract_origin : ℕ → Reader (Option SocketAddr)
extract_origin origin =
    if origin == udp_ipv4_origin
    then extract_ipv4
    else if origin == udp_ipv6_origin
    then extract_ipv6
    else pure none

-- Only the address is read: what is left unread is the payload. (`copy_to_slice` panics on a
-- short buffer, as `split_to` does.)
unfoldable pub extract_origin_socket_addr_from_datagram : Reader (Option SocketAddr)
extract_origin_socket_addr_from_datagram = do origin ← get_u8; extract_origin origin
