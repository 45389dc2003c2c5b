-- ===== src/Appdir.antt =====
-- internal/appdir. The disk, the random source, crypto and encoding/pem are parameters.
pub mod Keeping
pub mod Again
use sprut.Io.X509.{CertTemplate}
use sprut.Base.{
  inr, none, false, some, [], inl, true, ◌⊎◌, Bool, ◌&&◌, ◌∷◌, codes, if◌then◌else◌, Option, String,
  List, ℕ,
}
use sprut.Io.{
  wrap, wrap_text, fail, err, and_then, ok, Error, wrapping, return, Outcome, ◌>>=◌, ◌>>◌, Proc,
}

-- What the package calls of os, path/filepath, xdg and encoding/pem, on the files of a disk `S`; a
-- file is named by its path also where it is open.
pub record Disk (S : Type 0) : Type 0 where
  pub config_home : List ℕ
  pub join : List ℕ → List ℕ → List ℕ
  pub mkdir_all : List ℕ → Proc S (Unit {0})
  pub stat : List ℕ → S → Option Error
  pub write_file : List ℕ → List ℕ → Proc S (Unit {0})
  pub open_truncated : List ℕ → Proc S (Unit {0})
  pub pem_encode : List ℕ → List ℕ → List ℕ → Proc S (Unit {0})

-- The random source, the clock, crypto/ecdsa and crypto/x509, and the bytes of default_config.yaml.
pub record Source (Key : Type 0) : Type 0 where
  pub default_config_yaml : List ℕ
  pub generate_key : Error ⊎ Key
  pub serial_number : Error ⊎ ℕ
  pub now : ℕ
  pub in_a_year : ℕ → ℕ
  pub create_certificate : CertTemplate → Key → Error ⊎ List ℕ
  pub marshal_private_key : Key → Error ⊎ List ℕ

-- The error of a call that has no effect on the disk.
pub or_error {ℓ} : {S : Type 0} {A : Type ℓ} → String → Error ⊎ A → Proc S A
or_error context (inl e) = fail (wrap context e)
or_error context (inr a) = return a

module _ {S : Type 0} (disk : Disk S) where
  -- Dir, ConfigPath, CertsDir, LogsDir, CertPath, KeyPath and LogFilePath.
  unfoldable pub dir : List ℕ
  dir = disk.join disk.config_home (codes "sprut")

  unfoldable pub config_path : List ℕ
  config_path = disk.join dir (codes "config.yaml")

  unfoldable pub certs_dir : List ℕ
  certs_dir = disk.join dir (codes "certs")

  unfoldable pub logs_dir : List ℕ
  logs_dir = disk.join dir (codes "logs")

  unfoldable pub cert_path : List ℕ
  cert_path = disk.join certs_dir (codes "server.crt")

  unfoldable pub key_path : List ℕ
  key_path = disk.join certs_dir (codes "server.key")

  unfoldable pub log_file_path : List ℕ
  log_file_path = disk.join logs_dir (codes "sprut.log")

  -- `for _, dir := range dirs`
  make_dir : List ℕ → Outcome S (Unit {0}) → Outcome S (Unit {0})
  make_dir path (ok a s) = ok a s
  make_dir path (err e s) = err (wrap_text "create directory %s" path e) s

  unfoldable pub make_dirs : List (List ℕ) → Proc S (Unit {0})
  unfolding make_dir
  make_dirs [] s = ok tt s
  make_dirs (path ∷ paths) s =
      and_then (make_dir path (disk.mkdir_all path s)) (λ _. make_dirs paths)

  exists : Option Error → Bool
  exists none = true
  exists (some e) = false

  module _ {Key : Type 0} (source : Source Key) where
    -- writeDefaultConfig and ensureDefaultConfig.
    write_default_config : List ℕ → Proc S (Unit {0})
    write_default_config path =
        wrapping "write default config" (disk.write_file path source.default_config_yaml)

    unfoldable pub ensure_default_config : Proc S (Unit {0})
    unfolding write_default_config exists
    ensure_default_config s =
        if exists (disk.stat config_path s) then ok tt s else write_default_config config_path s

    -- generateSelfSignedCert. That the two files are closed at the end is left out.
    abbrev template : ℕ → CertTemplate
    template serial_number = record {
      serial_number = serial_number;
      organization = codes "Sprut Self-Signed" ∷ [];
      common_name = codes "localhost";
      not_before = source.now;
      not_after = source.in_a_year source.now;
      key_encipherment = true;
      digital_signature = true;
      server_auth = true;
      basic_constraints_valid = true;
      dns_names = codes "localhost" ∷ [];
      ip_addresses = codes "127.0.0.1" ∷ codes "::1" ∷ [];
    }

    unfoldable pub generate_self_signed_cert : List ℕ → List ℕ → Proc S (Unit {0})
    unfolding or_error
    generate_self_signed_cert cert_path key_path = do
      private_key ← or_error "generate private key" source.generate_key
      serial_number ← or_error "generate serial number" source.serial_number
      cert_der ←
          or_error "create certificate"
            (source.create_certificate (template serial_number) private_key)
      wrapping "create cert file" (disk.open_truncated cert_path)
      wrapping "encode certificate" (disk.pem_encode cert_path (codes "CERTIFICATE") cert_der)
      wrapping "create key file" (disk.open_truncated key_path)
      key_der ← or_error "marshal private key" (source.marshal_private_key private_key)
      wrapping "encode private key" (disk.pem_encode key_path (codes "EC PRIVATE KEY") key_der)

    -- ensureCerts.
    unfoldable pub ensure_certs : Proc S (Unit {0})
    unfolding exists
    ensure_certs s =
        if exists (disk.stat cert_path s) && exists (disk.stat key_path s)
        then ok tt s
        else generate_self_signed_cert cert_path key_path s

    -- Init.
    unfoldable pub init : Proc S (Unit {0})
    init = do
      make_dirs (dir ∷ certs_dir ∷ logs_dir ∷ [])
      wrapping "ensure default config" ensure_default_config
      wrapping "ensure certificates" ensure_certs
