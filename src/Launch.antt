-- ===== src/Launch.antt =====
-- siffleux-cli: the program, which starts a server or a client from its configuration.
pub mod Servers
pub mod Clients
pub mod Program
