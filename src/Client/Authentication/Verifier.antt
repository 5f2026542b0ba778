-- ===== src/Client/Authentication/Verifier.antt =====
-- siffleux/src/client/authentication/certificate_hash_verifier.rs. The hash, the signatures and the
-- provider of the cryptography belong to libraries, so they are given. A certificate, a message or
-- a signature is the list of its bytes.
use siffleux.Prelude.{ℕ, String, Option, none, some, List, bytes_beq, if◌then◌else◌}
use siffleux.Error.{Result, ok, panic}

-- `CryptoProvider::get_default()`: its algorithms, by a number, and the schemes that they support.
pub record Provider : Type 0 where
  pub signature_verification_algorithms : ℕ
  pub supported_schemes : List ℕ

-- What a check of the TLS library returns: an assertion, or an error, of which one kind has a text.
pub data Verified : Type 0 where
  assertion : Verified
  general : String → Verified
  other : ℕ → Verified

pub record CertificateHashVerifier : Type 0 where
  pub certificate_hash : List ℕ
  pub supported_signature_schemes : List ℕ

-- `unwrap` of the provider
unfoldable pub new : Option Provider → List ℕ → Result CertificateHashVerifier
new none certificate_hash = panic
new (some provider) certificate_hash = ok (record {
  certificate_hash = certificate_hash;
  supported_signature_schemes = provider.supported_schemes;
})

-- `sha256` is `Sha256::digest`. The intermediates, the server's name, the OCSP response and the time are
-- not looked at.
unfoldable pub verify_server_cert : (List ℕ → List ℕ) → CertificateHashVerifier → List ℕ → Verified
verify_server_cert sha256 verifier end_entity =
    if bytes_beq (sha256 end_entity) verifier.certificate_hash
    then assertion
    else general "certificate hash mismatch"

-- The library's function of the same name takes the message, the certificate, the signature and the algorithms.
unfoldable pub verify_tls12_signature :
    (List ℕ → List ℕ → List ℕ → ℕ → Verified)
    → Option Provider
    → List ℕ
    → List ℕ
    → List ℕ
    → Result Verified
verify_tls12_signature library none message cert dss = panic
verify_tls12_signature library (some provider) message cert dss =
    ok (library message cert dss provider.signature_verification_algorithms)

unfoldable pub verify_tls13_signature :
    (List ℕ → List ℕ → List ℕ → ℕ → Verified)
    → Option Provider
    → List ℕ
    → List ℕ
    → List ℕ
    → Result Verified
verify_tls13_signature library none message cert dss = panic
verify_tls13_signature library (some provider) message cert dss =
    ok (library message cert dss provider.signature_verification_algorithms)

unfoldable pub supported_verify_schemes : CertificateHashVerifier → List ℕ
supported_verify_schemes verifier = verifier.supported_signature_schemes
