-- ===== src/Certificates/Restart.antt =====
-- siffleux-cli/src/utils.rs: the certificate of a server that is started again.
use siffleux.Prelude.{ap, ◌∙◌, String, ◌≡◌, ◌≢◌, refl, Option, none, some, List, ℕ}
use siffleux.Error.{ok}
use siffleux.Config.Types.{TlsConfig}
use siffleux.Certificates.{
  store_generated, write_key, SelfSigned, Certificate, Crypto, Disk,
  load_or_generate_self_signed_certificate,
}

-- A disk gives back what was written to the paths of a configuration: `cert_of` and `key_of` are what the
-- library makes of a text. What is written to the key's path does not change another path.
pub record IsDisk {Files : Type 0} (disk : Disk Files) (tls : TlsConfig)
    (cert_of key_of : String → Option (List ℕ)) : Type 0 where
  pub cert-write :
      (text : String) (files : Files)
      → (disk.write tls.cert_pem_path text files).0 ≡ ok tt
      → disk.cert_from_pem tls.cert_pem_path (disk.write tls.cert_pem_path text files).1
        ≡ cert_of text
  pub key-write :
      (text : String) (files : Files)
      → (disk.write tls.key_pem_path text files).0 ≡ ok tt
      → disk.key_from_pem tls.key_pem_path (disk.write tls.key_pem_path text files).1 ≡ key_of text
  pub cert-write_key :
      (text : String) (files : Files)
      → tls.cert_pem_path ≢ tls.key_pem_path
      → disk.cert_from_pem tls.cert_pem_path (disk.write tls.key_pem_path text files).1
        ≡ disk.cert_from_pem tls.cert_pem_path files

-- The library reads the certificate and the key that it has printed.
pub record IsPrinted (cert_of key_of : String → Option (List ℕ)) (s : SelfSigned) : Type 0 where
  pub cert : cert_of s.cert_pem ≡ some s.cert_der
  pub key : key_of s.key_pem ≡ some s.key_der

-- What a generated certificate comes to.
abbrev pub certificate_of : Crypto → SelfSigned → Certificate
certificate_of crypto s = record {
  cert_der = s.cert_der;
  key = s.key_der;
  cert_hash = crypto.sha256 s.cert_der;
}

-- The two writes of a generated certificate succeed.
pub record CanWrite {Files : Type 0} (disk : Disk Files) (tls : TlsConfig) (s : SelfSigned)
    (files : Files) : Type 0 where
  pub cert : (disk.write tls.cert_pem_path s.cert_pem files).0 ≡ ok tt
  pub key :
      (disk.write tls.key_pem_path s.key_pem (disk.write tls.cert_pem_path s.cert_pem files).1).0
      ≡ ok tt

module _ {Files : Type 0} (disk : Disk Files) where
  -- The files after the two writes.
  abbrev pub stored : TlsConfig → SelfSigned → Files → Files
  stored tls s files =
      (disk.write tls.key_pem_path s.key_pem (disk.write tls.cert_pem_path s.cert_pem files).1).1

  load-missing :
      (crypto : Crypto) (tls : TlsConfig) (s : SelfSigned) (files : Files)
      → disk.cert_from_pem tls.cert_pem_path files ≡ none
      → crypto.generate tls.cert_subject_alt_name ≡ ok s
      → CanWrite disk tls s files
      → load_or_generate_self_signed_certificate disk crypto tls files
        ≡ (ok (certificate_of crypto s), stored tls s files)
  unfolding load_or_generate_self_signed_certificate
  load-missing crypto tls s files missing made w = rw (
    missing, load_or_generate_self_signed_certificate, made, store_generated, w.cert, write_key,
    w.key,
  )

  load-found :
      (crypto : Crypto) (tls : TlsConfig) (cert key : List ℕ) (files : Files)
      → disk.cert_from_pem tls.cert_pem_path files ≡ some cert
      → disk.key_from_pem tls.key_pem_path files ≡ some key
      → load_or_generate_self_signed_certificate disk crypto tls files
        ≡ (ok (record { cert_der = cert; key = key; cert_hash = crypto.sha256 cert }), files)
  unfolding load_or_generate_self_signed_certificate
  load-found crypto tls cert key files found_cert found_key =
      rw (found_cert, load_or_generate_self_signed_certificate, found_key)

module _ {Files : Type 0} (disk : Disk Files) (tls : TlsConfig)
    (cert_of key_of : String → Option (List ℕ)) (d : IsDisk disk tls cert_of key_of) where
  -- A server without a certificate file that is started, with two paths that differ and writes that
  -- succeed, makes a certificate and stores it; started again, whatever would be generated then, it
  -- has the same certificate, key and hash, and the files stay as they are.
  pub restart_keeps_certificate :
      (crypto later : Crypto) (s : SelfSigned) (files : Files)
      → later.sha256 ≡ crypto.sha256
      → disk.cert_from_pem tls.cert_pem_path files ≡ none
      → tls.cert_pem_path ≢ tls.key_pem_path
      → crypto.generate tls.cert_subject_alt_name ≡ ok s
      → IsPrinted cert_of key_of s
      → CanWrite disk tls s files
      → let first = load_or_generate_self_signed_certificate disk crypto tls files in
        (first.0 ≡ ok (certificate_of crypto s))
        × (load_or_generate_self_signed_certificate disk later tls first.1
            ≡ (ok (certificate_of crypto s), first.1))
  restart_keeps_certificate crypto later s files same missing apart made printed w =
      rw (load-missing disk crypto tls s files missing made w) (
        refl,
        rw
            (load-found disk later tls s.cert_der s.key_der (stored disk tls s files)
              (d.cert-write_key s.key_pem (disk.write tls.cert_pem_path s.cert_pem files).1 apart
                ∙ d.cert-write s.cert_pem files w.cert
                ∙ printed.cert)
              (d.key-write s.key_pem (disk.write tls.cert_pem_path s.cert_pem files).1 w.key
                ∙ printed.key))
            (ap
              (λ f. (
                ok (record { cert_der = s.cert_der; key = s.key_der; cert_hash = f s.cert_der }),
                stored disk tls s files,
              ))
              same),
      )
