-- ===== src/Testsprut/Resources.antt =====
-- GenerateCerts and Cleanup of pkg/testsprut/certs.go, startNATS and Terminate of
-- pkg/testsprut/nats.go. The calls of crypto, os and testcontainers are parameters.
pub mod Released
use sprut.Io.X509.{CertTemplate}
use sprut.Router.Setup.{Host}
use sprut.Base.{
  ◌++◌, inr, false, none, ◌∷◌, true, inl, ℕ, ◌⊎◌, codes, some, Option, String, Bool, List, [],
}
use sprut.Io.{ok, ◌>>◌, wrap, return, err, ◌>>=◌, Proc, Error}

-- What a test environment has in use: its container, the directory of its certificates, and the
-- server with the listener. The first two count as free once they were asked to go: that Terminate and
-- RemoveAll fail is an error which the package drops.
pub record Rig : Type 0 where
  pub container : Bool
  pub certs_dir : Bool
  pub host : Host

pub record Certs : Type 0 where
  pub cert_file : List ℕ
  pub key_file : List ℕ
  pub ca_cert : List ℕ
  pub dir : List ℕ

-- What the package calls. The error of GenericContainer comes with whether there is a container all the
-- same, created or running, as where it starts but its port does not open in time.
pub record Calls (Key : Type 0) : Type 0 where
  pub mkdir_temp : Error ⊎ List ℕ
  pub join : List ℕ → List ℕ → List ℕ
  pub generate_key : Error ⊎ Key
  pub now : ℕ
  pub in_a_day : ℕ → ℕ
  pub create_certificate : CertTemplate → Key → Error ⊎ List ℕ
  pub marshal_private_key : Key → Error ⊎ List ℕ
  pub encode_to_memory : List ℕ → List ℕ → List ℕ
  pub write_file : List ℕ → List ℕ → Option Error
  pub generic_container : Option (Error × Bool)
  pub container_host : Error ⊎ List ℕ
  pub mapped_port : Error ⊎ List ℕ

-- `os.RemoveAll(dir); return nil, fmt.Errorf(...)`, and the value otherwise.
or_removed {ℓ} : {A : Type ℓ} → String → Error ⊎ A → Proc Rig A
or_removed context (inl e) rig = err (wrap context e) (record rig { certs_dir = false })
or_removed context (inr a) rig = ok a rig

written_or_removed : String → Option Error → Proc Rig (Unit {0})
written_or_removed context (some e) rig = err (wrap context e) (record rig { certs_dir = false })
written_or_removed context none rig = ok tt rig

-- The same for the container.
or_terminated {ℓ} : {A : Type ℓ} → String → Error ⊎ A → Proc Rig A
or_terminated context (inl e) rig = err (wrap context e) (record rig { container = false })
or_terminated context (inr a) rig = ok a rig

module _ {Key : Type 0} (calls : Calls Key) where
  abbrev test_template : CertTemplate
  test_template = record {
    serial_number = 1;
    organization = [];
    common_name = codes "localhost";
    not_before = calls.now;
    not_after = calls.in_a_day calls.now;
    key_encipherment = true;
    digital_signature = true;
    server_auth = true;
    basic_constraints_valid = true;
    dns_names = codes "localhost" ∷ [];
    ip_addresses = codes "127.0.0.1" ∷ [];
  }

  in_dir : List ℕ → Proc Rig Certs
  in_dir dir = do
    priv ← or_removed "generate key" calls.generate_key
    der ← or_removed "create certificate" (calls.create_certificate test_template priv)
    written_or_removed "write cert file" (
        calls.write_file (calls.join dir (codes "cert.pem"))
          (calls.encode_to_memory (codes "CERTIFICATE") der))
    kb ← or_removed "marshal private key" (calls.marshal_private_key priv)
    written_or_removed "write key file" (
        calls.write_file (calls.join dir (codes "key.pem"))
          (calls.encode_to_memory (codes "EC PRIVATE KEY") kb))
    return (record {
      cert_file = calls.join dir (codes "cert.pem");
      key_file = calls.join dir (codes "key.pem");
      ca_cert = calls.encode_to_memory (codes "CERTIFICATE") der;
      dir = dir;
    })

  in_temp : Error ⊎ List ℕ → Proc Rig Certs
  in_temp (inl e) rig = err (wrap "create temp dir" e) rig
  in_temp (inr dir) rig = in_dir dir (record rig { certs_dir = true })

  -- GenerateCerts.
  unfoldable pub generate_certs : Proc Rig Certs
  unfolding in_temp in_dir or_removed written_or_removed
  generate_certs = in_temp calls.mkdir_temp

  mapped_url : Proc Rig (List ℕ)
  mapped_url = do
    host ← or_terminated "get NATS host" calls.container_host
    port ← or_terminated "get NATS port" calls.mapped_port
    return (codes "nats://" ++ (host ++ (codes ":" ++ port)))

  in_container : Option (Error × Bool) → Proc Rig (List ℕ)
  in_container (some (e, left)) rig =
      err (wrap "start NATS container" e) (record rig { container = left })
  in_container none rig = mapped_url (record rig { container = true })

  -- startNATS, by the URL of the container.
  unfoldable pub start_nats : Proc Rig (List ℕ)
  unfolding mapped_url in_container or_terminated
  start_nats = in_container calls.generic_container
