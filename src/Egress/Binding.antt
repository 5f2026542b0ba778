-- ===== src/Egress/Binding.antt =====
-- client/egress/udp_egress.rs and client/egress/tcp_egress.rs: `get_udp_socket` and `get_tcp_socket`, which make a socket
-- of version 4, set its options, and bind it to any address and port.
pub mod Got
pub mod Served
pub mod Origins
use siffleux.Prelude.{ℕ, ◌*◌, Bool, if◌then◌else◌, List, [], ◌∷◌}
use siffleux.Error.{Result, ok, ◌>>=◌}
use siffleux.Frames.{SocketAddr, v4}

-- `Type::DGRAM` of `Socket::new` and `TcpSocket::new_v4`
pub data Kind : Type 0 where
  datagrams : Kind
  connections : Kind

-- The calls on a socket that can fail.
pub data SocketCall : Type 0 where
  set_reuse_port : SocketCall
  set_reuse_address : SocketCall
  set_nonblocking : SocketCall
  set_recv_buffer_size : ℕ → SocketCall
  set_send_buffer_size : ℕ → SocketCall
  set_zero_linger : SocketCall
  bind : SocketAddr → SocketCall
  from_std : SocketCall
  connect : SocketAddr → SocketCall
  writable : SocketCall

-- What the operating system answers, with an error as `?` converts it.
pub record Os : Type 0 where
  pub socket : Kind → Result ℕ
  pub call : ℕ → SocketCall → Result (Unit {0})

-- `SocketAddr::new(Ipv4Addr::UNSPECIFIED.into(), 0)`
abbrev pub local_addr : SocketAddr
local_addr = v4 (0 ∷ 0 ∷ 0 ∷ 0 ∷ []) 0

abbrev pub buffer_size : ℕ
buffer_size = 4 * 1024 * 1024

-- `#[cfg(unix)]`
unfoldable pub set_reuse_port_on : Bool → Os → ℕ → Result (Unit {0})
set_reuse_port_on unix os socket = if unix then os.call socket set_reuse_port else ok tt

unfoldable pub get_udp_socket : Bool → Os → SocketAddr → Result ℕ
unfolding set_reuse_port_on
get_udp_socket unix os target_addr = do
  socket ← os.socket datagrams
  _ ← set_reuse_port_on unix os socket
  _ ← os.call socket set_reuse_address
  _ ← os.call socket set_nonblocking
  _ ← os.call socket (set_recv_buffer_size buffer_size)
  _ ← os.call socket (set_send_buffer_size buffer_size)
  _ ← os.call socket (bind local_addr)
  _ ← os.call socket from_std
  _ ← os.call socket (connect target_addr)
  _ ← os.call socket writable
  ok socket

unfoldable pub get_tcp_socket : Os → Result ℕ
get_tcp_socket os = do
  socket ← os.socket connections
  _ ← os.call socket set_reuse_address
  _ ← os.call socket set_reuse_port
  _ ← os.call socket set_zero_linger
  _ ← os.call socket (bind local_addr)
  ok socket
