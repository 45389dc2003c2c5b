-- ===== src/Router/Tls.antt =====
-- pkg/router/tls.go. Loading a key pair is a parameter.
pub mod Versions
use sprut.Config.{TlsConfig}
use sprut.Base.{true, [], ◌∷◌, codes, same_text, if◌then◌else◌, inr, inl, ◌⊎◌, Bool, List, ℕ}
use sprut.Io.{wrap, Error}

-- The cipher suites that the code names.
pub data CipherSuite : Type 0 where
  ecdhe_ecdsa_aes_256_gcm ecdhe_rsa_aes_256_gcm : CipherSuite
  ecdhe_ecdsa_chacha20_poly1305 ecdhe_rsa_chacha20_poly1305 : CipherSuite
  ecdhe_ecdsa_aes_128_gcm ecdhe_rsa_aes_128_gcm : CipherSuite

-- The fields of tls.Config that are set.
pub record TlsSettings (Certificate : Type 0) : Type 0 where
  pub certificate : Certificate
  pub min_version : ℕ
  pub cipher_suites : List CipherSuite
  pub session_tickets_disabled : Bool

-- tls.VersionTLS12 and tls.VersionTLS13.
abbrev pub version_tls12 : ℕ
version_tls12 = 0x0303

abbrev pub version_tls13 : ℕ
version_tls13 = 0x0304

module _ {Certificate : Type 0} where
  unfoldable pub settings_with : List ℕ → Error ⊎ Certificate → Error ⊎ TlsSettings Certificate
  settings_with min_version (inl e) = inl (wrap "load certificates" e)
  settings_with min_version (inr cert) = inr (record {
    certificate = cert;
    min_version = if same_text min_version (codes "1.3") then version_tls13 else version_tls12;
    cipher_suites =
        ecdhe_ecdsa_aes_256_gcm ∷ ecdhe_rsa_aes_256_gcm ∷ ecdhe_ecdsa_chacha20_poly1305
        ∷ ecdhe_rsa_chacha20_poly1305 ∷ ecdhe_ecdsa_aes_128_gcm ∷ ecdhe_rsa_aes_128_gcm ∷ [];
    session_tickets_disabled = true;
  })

  -- buildTLSConfig; `load_key_pair` is tls.LoadX509KeyPair.
  unfoldable pub build_tls_config :
      (List ℕ → List ℕ → Error ⊎ Certificate) → TlsConfig → Error ⊎ TlsSettings Certificate
  unfolding settings_with
  build_tls_config load_key_pair cfg =
      settings_with cfg.min_version (load_key_pair cfg.cert_file cfg.key_file)
