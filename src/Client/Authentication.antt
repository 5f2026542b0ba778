-- ===== src/Client/Authentication.antt =====
-- siffleux/src/client/authentication: how a client knows its server, and gets a tunnel from it.
pub mod Verifier
pub mod V1CertificateHash
pub mod Pinned
