-- ===== src/Frames/Types.antt =====
-- siffleux/src/common/frames/v1.rs: frames and their type bytes; socket addresses.
use siffleux.Prelude.{ℕ, List, String}
use siffleux.Ids.Names.{AuthKey, IngressId, ServerId}

-- The ALPN name `siffleux/v1`.
abbrev pub version : String
version = "siffleux/v1"

abbrev pub auth_type : ℕ
auth_type = 0

abbrev pub authenticated_type : ℕ
authenticated_type = 1

abbrev pub ping_type : ℕ
ping_type = 3

abbrev pub pong_type : ℕ
pong_type = 4

abbrev pub udp_ipv4_origin : ℕ
udp_ipv4_origin = 0

abbrev pub udp_ipv6_origin : ℕ
udp_ipv6_origin = 1

-- A `Uuid` is its 16 bytes.
abbrev pub Uuid : Type 0
Uuid = List ℕ

pub data FrameV1 : Type 0 where
  auth : AuthKey → IngressId → FrameV1
  authenticated : Uuid → ServerId → FrameV1
  ping : FrameV1
  pong : FrameV1

-- `std::net::SocketAddr`: the octets and the port, and the flow info and scope id of version 6.
pub data SocketAddr : Type 0 where
  v4 : List ℕ → ℕ → SocketAddr
  v6 : List ℕ → ℕ → ℕ → ℕ → SocketAddr
