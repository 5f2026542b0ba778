-- ===== src/Client/Authentication/V1CertificateHash.antt =====
-- siffleux/src/client/authentication/v1_cert_hash.rs: a connection to the server whose certificate has a
-- given hash, and the handshake over it.
use siffleux.Prelude.{ℕ, String, Option, none, List, []}
use siffleux.Error.{Result, ok, err, panic, ◌>>=◌}
use siffleux.Ids.Names.{AuthKey, IngressId}
use siffleux.Frames.{SocketAddr}
use siffleux.ByteCounter.{Counters}
use siffleux.Tunnel.{Tunnel}
use siffleux.Protocol.{AuthEvent, AuthOutcome}
use siffleux.Client.Auth.{handle_client_protocol_v1_auth}
use siffleux.Client.Authentication.Verifier
use siffleux.Client.Authentication.Verifier.{Provider, Verified, verify_server_cert}

-- Of its client only the counter is used.
pub record V1CertificateHash : Type 0 where
  pub client_byte_counter : ℕ
  pub auth_key : AuthKey
  pub server_address : SocketAddr
  pub server_name : String
  pub certificate_hash : List ℕ

unfoldable pub new : ℕ → AuthKey → SocketAddr → String → List ℕ → V1CertificateHash
new client_byte_counter auth_key server_address server_name certificate_hash = record {
  client_byte_counter = client_byte_counter;
  auth_key = auth_key;
  server_address = server_address;
  server_name = server_name;
  certificate_hash = certificate_hash;
}

-- The libraries: the provider; `QuicClientConfig::try_from`, `Endpoint::client` and `connect_with`, which
-- may fail; and the QUIC handshake with a check of the server's certificate, an address and a name,
-- which gives a connection, whose peer has a certificate.
pub record Network : Type 0 where
  pub sha256 : List ℕ → List ℕ
  pub provider : Option Provider
  pub quic_config : Result (Unit {0})
  pub endpoint : Result (Unit {0})
  pub connect_with : SocketAddr → String → Result (Unit {0})
  pub handshake : (List ℕ → Verified) → SocketAddr → String → Result ℕ
  pub peer_certificate : ℕ → List ℕ

-- The connection, before the handshake of the protocol. The windows and the number of streams are
-- constants.
unfoldable pub dial : Network → V1CertificateHash → Result ℕ
unfolding Verifier.new verify_server_cert
dial network a = do
  verifier ← Verifier.new network.provider a.certificate_hash
  _ ← network.quic_config
  _ ← network.endpoint
  _ ← network.connect_with a.server_address a.server_name
  network.handshake (verify_server_cert network.sha256 verifier) a.server_address a.server_name

unfoldable pub authenticate_over :
    Result ℕ
    → V1CertificateHash
    → IngressId
    → Result (Unit {0})
    → Result (Unit {0})
    → Counters
    → AuthEvent
    → AuthOutcome Tunnel
unfolding handle_client_protocol_v1_auth
authenticate_over (ok connection) a ingress_id opened written counters event =
    handle_client_protocol_v1_auth connection a.auth_key ingress_id a.client_byte_counter opened
      written counters event
authenticate_over (err e) a ingress_id opened written counters event = record {
  result = err e;
  close = none;
  sent = [];
  counters = counters;
}
authenticate_over panic a ingress_id opened written counters event = record {
  result = panic;
  close = none;
  sent = [];
  counters = counters;
}

-- `opened`, `written` and `event` are what the handshake of the protocol meets.
unfoldable pub connect :
    Network
    → V1CertificateHash
    → IngressId
    → Result (Unit {0})
    → Result (Unit {0})
    → Counters
    → AuthEvent
    → AuthOutcome Tunnel
unfolding dial authenticate_over
connect network a ingress_id opened written counters event =
    authenticate_over (dial network a) a ingress_id opened written counters event
