-- ===== src/Config.antt =====
-- siffleux-cli/src: the configurations of the command-line program, and how they come from a TOML file
-- or from arguments.
pub mod Draw
pub mod Types
pub mod Toml
pub mod Cli
pub mod Servers
pub mod Clients
