-- ===== src/Certificates.antt =====
-- siffleux/src/common/utils.rs, and the certificate files of siffleux-cli/src/utils.rs. The hash,
-- the generation of certificates, the reading of PEM files and the disk belong to libraries and to the
-- operating system, so they are given. A certificate or a key is the list of its bytes.
pub mod Restart
use siffleux.Prelude.{ℕ, String, Option, none, some, List}
use siffleux.Error.{Result, ok, err, panic, unwrap, ◌>>=◌}
use siffleux.Config.Types.{TlsConfig}

-- What `rcgen` makes: the certificate and its key, each as bytes and as PEM text.
pub record SelfSigned : Type 0 where
  pub cert_der : List ℕ
  pub key_der : List ℕ
  pub cert_pem : String
  pub key_pem : String

pub record Certificate : Type 0 where
  pub cert_der : List ℕ
  pub key : List ℕ
  pub cert_hash : List ℕ

-- `sha256` is `Sha256::digest`, and `generate` is `rcgen::generate_simple_self_signed`.
pub record Crypto : Type 0 where
  pub sha256 : List ℕ → List ℕ
  pub generate : String → Result SelfSigned

-- `cert_from_pem` and `key_from_pem` are `from_pem_file`, `none` for an error, and `write` is
-- `tokio::fs::write`.
pub record Disk (Files : Type 0) : Type 0 where
  pub cert_from_pem : String → Files → Option (List ℕ)
  pub key_from_pem : String → Files → Option (List ℕ)
  pub write : String → String → Files → Result (Unit {0}) × Files

unfoldable pub hash_certificate : Crypto → List ℕ → List ℕ
hash_certificate crypto certificate = crypto.sha256 certificate

unfoldable pub generate_self_signed_certificate :
    Crypto → String → Result (Certificate × String × String)
unfolding hash_certificate
generate_self_signed_certificate crypto subject_alt_name = do
  self_signed ← unwrap (crypto.generate subject_alt_name)
  ok (
    record {
      cert_der = self_signed.cert_der;
      key = self_signed.key_der;
      cert_hash = hash_certificate crypto self_signed.cert_der;
    },
    self_signed.cert_pem,
    self_signed.key_pem,
  )

module _ {Files : Type 0} (disk : Disk Files) where
  -- Each write is unwrapped: the second is not tried after a first that failed.
  unfoldable pub write_key :
      TlsConfig → Certificate → String → Result (Unit {0}) × Files → Result Certificate × Files
  write_key tls certificate key_pem (ok _, files) =
      let (written, files') = disk.write tls.key_pem_path key_pem files in
      (unwrap written >>= λ _. ok certificate, files')
  write_key tls certificate key_pem (err _, files) = (panic, files)
  write_key tls certificate key_pem (panic, files) = (panic, files)

  unfoldable pub store_generated :
      TlsConfig → Result (Certificate × String × String) → Files → Result Certificate × Files
  unfolding write_key
  store_generated tls (ok (certificate, cert_pem, key_pem)) files =
      write_key tls certificate key_pem (disk.write tls.cert_pem_path cert_pem files)
  store_generated tls (err e) files = (err e, files)
  store_generated tls panic files = (panic, files)

  unfoldable pub load_or_generate_self_signed_certificate :
      Crypto → TlsConfig → Files → Result Certificate × Files
  unfolding hash_certificate generate_self_signed_certificate store_generated
  load_or_generate_self_signed_certificate crypto tls files =
      elim (disk.cert_from_pem tls.cert_pem_path files) [
        | none ↦
            store_generated tls (generate_self_signed_certificate crypto tls.cert_subject_alt_name)
              files
        | some cert ↦ elim (disk.key_from_pem tls.key_pem_path files) [
          | none ↦
              store_generated tls
                (generate_self_signed_certificate crypto tls.cert_subject_alt_name) files
          | some key ↦ (
            ok (record { cert_der = cert; key = key; cert_hash = hash_certificate crypto cert }),
            files,
          )
        ]
      ]
