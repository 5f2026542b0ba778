-- ===== src/Ingress.antt =====
-- siffleux/src/server/ingress: the endpoints of the server that accept traffic.
pub mod Trait
pub mod Pool
pub mod Tcp
pub mod Udp
pub mod Boxed
