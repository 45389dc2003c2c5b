-- ===== src/Io/X509.antt =====
-- The fields of crypto/x509.Certificate that the code sets, as a template.
use sprut.Base.{ℕ, List, Bool}

pub record CertTemplate : Type 0 where
  pub serial_number : ℕ
  pub organization : List (List ℕ)
  pub common_name : List ℕ
  pub not_before : ℕ
  pub not_after : ℕ
  pub key_encipherment : Bool
  pub digital_signature : Bool
  pub server_auth : Bool
  pub basic_constraints_valid : Bool
  pub dns_names : List (List ℕ)
  pub ip_addresses : List (List ℕ)
