-- ===== src/Client/Authentication/Pinned.antt =====
-- siffleux/src/client/authentication: whom a client talks to.
use siffleux.Prelude.{
  ℕ, String, ◌≡◌, ◌≢◌, ◌↔◌, ◌∙◌, refl, Option, List, [], ◌∷◌, arith, bytes_beq_iff,
}
use siffleux.Error.{Result, ok, err, panic, bind-ok}
use siffleux.Ids.Names.{IngressId}
use siffleux.Frames.{SocketAddr, auth, authenticated}
use siffleux.ByteCounter.{Counters}
use siffleux.Tunnel
use siffleux.Tunnel.{Tunnel}
use siffleux.Protocol.{AuthEvent}
use siffleux.Client.Auth.{handle_client_protocol_v1_auth, handle_answer, unexpected_answer}
use siffleux.Client.Authentication.Verifier
use siffleux.Client.Authentication.Verifier.{
  Provider, CertificateHashVerifier, Verified, assertion, verify_server_cert,
}
use siffleux.Client.Authentication.V1CertificateHash.{
  V1CertificateHash, Network, dial, authenticate_over, connect,
}

-- What the TLS library documents: a handshake gives a connection only if the verifier asserted the
-- certificate of its peer.
pub record IsVerifying (network : Network) : Type 0 where
  pub verified :
      (verify : List ℕ → Verified) (address : SocketAddr) (name : String) (connection : ℕ)
      → network.handshake verify address name ≡ ok connection
      → verify (network.peer_certificate connection) ≡ assertion

-- The connection's peer has the certificate with the hash.
abbrev pub IsPinned : Network → V1CertificateHash → ℕ → Type 0
IsPinned network a connection =
    network.sha256 (network.peer_certificate connection) ≡ a.certificate_hash

hash-new :
    (provider : Option Provider) (hash : List ℕ) (verifier : CertificateHashVerifier)
    → Verifier.new provider hash ≡ ok verifier
    → verifier.certificate_hash ≡ hash
unfolding Verifier.new
hash-new provider hash verifier h = ground arith

verify-assertion :
    (sha256 : List ℕ → List ℕ) (verifier : CertificateHashVerifier) (cert : List ℕ)
    → (verify_server_cert sha256 verifier cert ≡ assertion)
      ↔ (sha256 cert ≡ verifier.certificate_hash)
unfolding verify_server_cert
verify-assertion sha256 verifier cert =
    ground (arith, bytes_beq_iff (sha256 cert) verifier.certificate_hash)

dial-IsPinned :
    (network : Network) (a : V1CertificateHash) (connection : ℕ)
    → IsVerifying network
    → dial network a ≡ ok connection
    → IsPinned network a connection
unfolding dial
dial-IsPinned network a connection v h =
    let (verifier, made, h₁) =
      bind-ok (Verifier.new network.provider a.certificate_hash) _ connection h in
    let (_, _, h₂) = bind-ok network.quic_config _ connection h₁ in
    let (_, _, h₃) = bind-ok network.endpoint _ connection h₂ in
    let (_, _, h₄) =
      bind-ok (network.connect_with a.server_address a.server_name) _ connection h₃ in
    let asserted =
      v.verified (verify_server_cert network.sha256 verifier) a.server_address a.server_name
        connection h₄ in
    (verify-assertion network.sha256 verifier (network.peer_certificate connection)).0 asserted
    ∙ hash-new network.provider a.certificate_hash verifier made

-- What the handshake of the protocol makes of the server's answer.
answered :
    (connection counter : ℕ) (cs : Counters) (event : AuthEvent) (tunnel : Tunnel)
    → (handle_answer connection counter cs event).result ≡ ok tunnel
    → (tunnel.connection ≡ connection)
      × (event ≡ AuthEvent.frame (ok (authenticated tunnel.id tunnel.server_id)))
unfolding handle_answer Tunnel.new
answered connection counter cs event tunnel h = ground arith

-- Nothing is sent before the connection is there, and then at most the auth frame.
sent-authenticate :
    (r : Result ℕ) (a : V1CertificateHash) (i : IngressId) (opened written : Result (Unit {0}))
    (cs : Counters) (event : AuthEvent)
    → (authenticate_over r a i opened written cs event).sent ≢ []
    → (connection : ℕ) × (r ≡ ok connection)
      × ((authenticate_over r a i opened written cs event).sent ≡ auth a.auth_key i ∷ [])
unfolding authenticate_over handle_client_protocol_v1_auth handle_answer unexpected_answer
sent-authenticate (ok c) a i opened written cs event h = (c, refl, ground arith)
sent-authenticate (err e) a i opened written cs event h = absurd (h refl)
sent-authenticate panic a i opened written cs event h = absurd (h refl)

result-authenticate :
    (r : Result ℕ) (a : V1CertificateHash) (i : IngressId) (opened written : Result (Unit {0}))
    (cs : Counters) (event : AuthEvent) (tunnel : Tunnel)
    → (authenticate_over r a i opened written cs event).result ≡ ok tunnel
    → (r ≡ ok tunnel.connection)
      × (event ≡ AuthEvent.frame (ok (authenticated tunnel.id tunnel.server_id)))
      × ((authenticate_over r a i opened written cs event).sent ≡ auth a.auth_key i ∷ [])
unfolding authenticate_over handle_client_protocol_v1_auth handle_answer unexpected_answer
result-authenticate (ok c) a i opened written cs event tunnel h =
    (ground arith, ground arith, ground arith)
result-authenticate (err e) a i opened written cs event tunnel h = cc
result-authenticate panic a i opened written cs event tunnel h = cc

module _ (network : Network) (v : IsVerifying network) where
  -- A client that connects sends nothing but one auth frame with its key and its ingress, and sends it only
  -- over a connection whose peer has a certificate with the hash that it was given.
  pub key_sent_only-IsPinned :
      (a : V1CertificateHash) (i : IngressId) (opened written : Result (Unit {0})) (cs : Counters)
      (event : AuthEvent)
      → (connect network a i opened written cs event).sent ≢ []
      → (connection : ℕ) × (dial network a ≡ ok connection)
        × IsPinned network a connection
        × ((connect network a i opened written cs event).sent ≡ auth a.auth_key i ∷ [])
  unfolding connect
  key_sent_only-IsPinned a i opened written cs event h =
      let (c, dialled, only) = sent-authenticate (dial network a) a i opened written cs event h in
      (c, dialled, dial-IsPinned network a c v dialled, only)

  -- A tunnel that a client gets lies on a connection whose peer has a certificate with the hash that the
  -- client was given; it has the ids that this peer answered with, and the client has shown its key.
  pub connect_sound :
      (a : V1CertificateHash) (i : IngressId) (opened written : Result (Unit {0})) (cs : Counters)
      (event : AuthEvent) (tunnel : Tunnel)
      → (connect network a i opened written cs event).result ≡ ok tunnel
      → IsPinned network a tunnel.connection
        × (event ≡ AuthEvent.frame (ok (authenticated tunnel.id tunnel.server_id)))
        × ((connect network a i opened written cs event).sent ≡ auth a.auth_key i ∷ [])
  unfolding connect
  connect_sound a i opened written cs event tunnel h =
      let (dialled, answer, shown) =
        result-authenticate (dial network a) a i opened written cs event tunnel h in
      (dial-IsPinned network a tunnel.connection v dialled, answer, shown)
