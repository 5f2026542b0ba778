-- ===== src/Frames.antt =====
-- siffleux/src/common/frames/v1.rs: the frames of the command stream, and the datagrams that
-- carry UDP traffic with the socket address that it came from.
mod Types
mod Codec
mod Datagram
pub mod RoundTrip
pub mod Partial
pub mod Streams
pub mod Origin
pub use Types.*
unfoldable pub use Codec.{encode, decode}
unfoldable pub use Datagram.{
  to_datagram, extract_origin, extract_ipv4, extract_origin_socket_addr_from_datagram,
}
