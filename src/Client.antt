-- ===== src/Client.antt =====
-- siffleux/src/client: the side that connects to a server and serves traffic.
pub mod Registry
pub mod Auth
pub mod Command
pub mod Authentication
