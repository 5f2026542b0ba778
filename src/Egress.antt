-- ===== src/Egress.antt =====
-- siffleux/src/client/egress: the endpoints of the client that deliver traffic to a target.
pub mod Trait
pub mod Backoff
pub mod Tunnelling
pub mod Lifecycle
pub mod Sockets
pub mod Streams
pub mod Binding
pub mod Boxed
pub mod Udp
