-- ===== src/Examples.antt =====
-- The theorems at concrete inputs.
mod Data
mod Wire
mod Sessions
mod Routing
mod Configs
mod Streams
mod Egresses
mod Launching
mod Pinning
mod Traffic
