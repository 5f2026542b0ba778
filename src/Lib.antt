-- ===== src/Lib.antt =====
-- Siffleux: a self-hosted tunnel over QUIC. A server has ingresses, which take TCP connections or UDP
-- datagrams from the outside; a client has egresses, which connect to the server, prove by a key that
-- they may serve an ingress, and carry its traffic to a target.
--
-- How the parts interact. A client opens a stream and sends an auth frame; the server looks the ingress
-- up, compares the key, answers with a frame that has the tunnel's id, and gives the tunnel to the
-- ingress. Then both sides run a command stream with pings. An ingress picks a tunnel for each connection
-- or datagram; a datagram carries its sender's address in front. An egress keeps a tunnel alive and
-- reconnects when it is lost.
--
-- Which file models which part (paths from the repository's root):
--   Bytes: the buffer methods of the `bytes` library that the code calls, by their documentation.
--   Error, Error/Transport, Error/Convert, Error/Fallible: siffleux/src/common/error.rs and code.rs. A
--     call returns `ok`, `err` or `panic`.
--   Ids and below: siffleux/src/common/auth_key.rs, siffleux/src/server/server_id.rs,
--     siffleux/src/server/ingress/ingress_id.rs, siffleux/src/client/egress/egress_id.rs. A string is the
--     list of its UTF-8 bytes.
--   Frames and below: siffleux/src/common/frames/v1.rs (`encode`, `decode`, `to_datagram`,
--     `extract_origin_socket_addr_from_datagram`). A reader takes bytes off the front of a list; panics
--     of indexing and of `split_to` are results.
--     Frames/Streams: many frames in one buffer.
--   ByteCounter and below: siffleux/src/common/byte_counter.rs. Tunnel and below: siffleux/src/common/tunnel.rs.
--   Certificates and below: siffleux/src/common/utils.rs, and the loading and writing of certificates in
--     siffleux-cli/src/utils.rs. The certificate library and the disk are parameters.
--   Ingress/Trait: siffleux/src/server/ingress/ingress.rs, as a record of operations and laws.
--     Ingress/Boxed: `Box<dyn Ingress>`, over the two ingresses.
--   Ingress/Pool and below: what tcp_ingress.rs and udp_ingress.rs share (`get_tunnel_to_connect` and the
--     removal of ended tunnels). Pool/Race has the interleavings of the tasks, as a step relation.
--     Pool/Bag has the abstract view of the tunnels, as a quotient, and Pool/Refine relates the two.
--   Ingress/Tcp and Ingress/Udp, and below: siffleux/src/server/ingress/tcp_ingress.rs and udp_ingress.rs.
--   Server, Server/Connection: siffleux/src/server/server.rs. Server/Auth, Server/Command:
--     siffleux/src/server/protocols/v1.rs.
--   Client/Auth, Client/Command: siffleux/src/client/protocols/v1.rs. Protocol: what both wait for.
--   Protocol/Copying: siffleux/src/common/protocols/v1.rs. Client/Registry: siffleux/src/client/client.rs.
--   Client/Authentication and below: siffleux/src/client/authentication/certificate_hash_verifier.rs and
--     v1_cert_hash.rs.
--   Handshake: the two handshakes put together.
--   Egress/Trait: siffleux/src/client/egress/egress.rs, as a record of operations and laws.
--     Egress/Boxed: `Box<dyn Egress>`, over the two egresses.
--   Egress/Lifecycle, Egress/Tunnelling, Egress/Backoff: what siffleux/src/client/egress/tcp_egress.rs
--     and udp_egress.rs share. Egress/Sockets and below: the sockets of udp_egress.rs.
--     Egress/Udp and below: its task with them. Egress/Streams: `handle_stream` of tcp_egress.rs.
--     Egress/Binding and below: `get_udp_socket` and `get_tcp_socket`, and `handle_stream` with the latter.
--   Config and below: siffleux-cli/src/siffleux_config.rs, toml_config.rs, cli.rs, and the drawing of
--     keys in utils.rs.
--   Launch/Servers, Launch/Clients, Launch/Program and below: siffleux-cli/src/server.rs, client.rs and
--     main.rs.
--   System and below: a running server whose connections, listeners and tunnels act in any order, and the
--     way of a datagram through server and client.
--   Prelude: shared names, tests on numbers, lists, and maps as association lists. Examples: the theorems
--     at concrete inputs.
--
-- How state corresponds. An object behind an `Arc` is a record, and a method that changes it returns the
-- changed record. Tasks that were spawned and tokens that were cancelled are lists in the record. What
-- ends a `select!` is an event, and what a call of the network returns is an argument. Byte counters lie
-- in a list, since they point to their parents.
--
-- Panics. A call that panics returns `panic`, and its task ends there. The release profile of Cargo.toml aborts on
-- panics, so there the whole process ends with the task; other builds unwind, and the other tasks go on. Only
-- `live_run` of System follows the process through this; elsewhere what is said of other tasks is for as long as the
-- process runs.
--
-- Bounds and fuel. `tunnel_rotation` and the counters wrap at 64 bits, lengths in a frame at 16 and 8, the
-- retries at 32; the wait before a retry is 64 bits wide, with and without overflow checks. The chain of
-- parents is walked on fuel, and any fuel above the counter's place is enough, since a parent is made
-- before its children. Decoding many frames takes one
-- call for each frame and one more. No other function needs fuel.
--
-- Not modelled: QUIC, TLS, sockets, timers, signals, TOML and argument parsing, PEM, base64, hashing and
-- randomness, which are libraries, so that what they answer is given; logging. Times are events: nothing is said of how long a step takes. A tunnel's id is
-- given, since it is drawn at random.
pub mod Prelude
pub mod Bytes
pub mod Error
pub mod Ids
pub mod Frames
pub mod ByteCounter
pub mod Tunnel
pub mod Certificates
pub mod Ingress
pub mod Protocol
pub mod Server
pub mod Client
pub mod Handshake
pub mod System
pub mod Egress
pub mod Config
pub mod Launch
pub mod Examples
