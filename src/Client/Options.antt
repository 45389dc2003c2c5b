-- ===== src/Client/Options.antt =====
-- pkg/client/options.go, and buildTLSConfig of pkg/client/client.go. Reading a file and crypto/x509's
-- certificate pools are parameters.
pub mod Effects
pub mod Last
pub mod Secure
use sprut.Identity.{KeyPair}
use sprut.Base.{
  ℕ, ℤ, pos, List, [], ◌∷◌, ◌++◌, Option, none, some, Bool, true, false, ◌⊎◌, inl, inr, codes,
}
use sprut.Io.{Error, message, wrap_text}
use sprut.Router.Tls.{version_tls13}

-- connectConfig. `Full` stands for *tls.Config, `Pool` for *x509.CertPool and `Handler` for
-- func(error); an address is its text, and a timeout of a dial is taken as not negative.
pub record ConnectConfig (Full Pool Handler : Type 0) : Type 0 where
  pub keys : KeyPair
  pub tls_config : Option Full
  pub root_cas : Option Pool
  pub ca_cert_paths : List (List ℕ)
  pub server_name : List ℕ
  pub insecure_skip_verify : Bool
  pub local_addr : Option (List ℕ)
  pub on_error : Option Handler
  pub dial_timeout : ℕ
  pub write_timeout : ℤ
  pub read_buf_size : ℤ

-- DefaultDialTimeout, DefaultWriteTimeout, DefaultReadBufSize and DefaultLocalAddr, and the values
-- with which Connect begins.
abbrev pub default_dial_timeout : ℕ
default_dial_timeout = 10000000000

abbrev pub default_write_timeout : ℤ
default_write_timeout = pos 30000000000

abbrev pub default_read_buf_size : ℤ
default_read_buf_size = pos 100

unfoldable pub default_local_addr : Option (List ℕ)
default_local_addr = some (codes "127.0.0.1")

unfoldable pub default_config :
    {Full Pool Handler : Type 0} → KeyPair → ConnectConfig Full Pool Handler
default_config keys = record {
  keys = keys;
  tls_config = none;
  root_cas = none;
  ca_cert_paths = [];
  server_name = [];
  insecure_skip_verify = false;
  local_addr = default_local_addr;
  on_error = none;
  dial_timeout = default_dial_timeout;
  write_timeout = default_write_timeout;
  read_buf_size = default_read_buf_size;
}

-- The options that the package offers: the fields of connectConfig are its own. The key pair of
-- WithKeys is taken as not nil.
pub data ConnectOption (Full Pool Handler : Type 0) : Type 0 where
  with_keys : KeyPair → ConnectOption Full Pool Handler
  with_tls_config : Option Full → ConnectOption Full Pool Handler
  with_on_error : Option Handler → ConnectOption Full Pool Handler
  with_dial_timeout : ℕ → ConnectOption Full Pool Handler
  with_read_buf_size : ℤ → ConnectOption Full Pool Handler
  with_write_timeout : ℤ → ConnectOption Full Pool Handler
  with_root_cas : Option Pool → ConnectOption Full Pool Handler
  with_ca_cert_file : List ℕ → ConnectOption Full Pool Handler
  with_server_name : List ℕ → ConnectOption Full Pool Handler
  with_insecure_skip_verify : ConnectOption Full Pool Handler
  with_local_addr : Option (List ℕ) → ConnectOption Full Pool Handler

-- What *tls.Config the dial is given: the caller's own, or one with these fields set.
pub record TlsSettings (Pool : Type 0) : Type 0 where
  pub min_version : ℕ
  pub root_cas : Option Pool
  pub server_name : List ℕ
  pub insecure_skip_verify : Bool

-- os.ReadFile, x509.NewCertPool and AppendCertsFromPEM, which tells whether it found any.
pub record Calls (Pool : Type 0) : Type 0 where
  pub read_file : List ℕ → Error ⊎ List ℕ
  pub new_cert_pool : Pool
  pub append_certs : Pool → List ℕ → Option Pool

module _ {Full Pool Handler : Type 0} where
  -- The effect of one option.
  unfoldable pub apply_option :
      ConnectOption Full Pool Handler
      → ConnectConfig Full Pool Handler
      → ConnectConfig Full Pool Handler
  apply_option (with_keys keys) c = record c { keys = keys }
  apply_option (with_tls_config cfg) c = record c { tls_config = cfg }
  apply_option (with_on_error handler) c = record c { on_error = handler }
  apply_option (with_dial_timeout d) c = record c { dial_timeout = d }
  apply_option (with_read_buf_size n) c = record c { read_buf_size = n }
  apply_option (with_write_timeout d) c = record c { write_timeout = d }
  apply_option (with_root_cas pool) c = record c { root_cas = pool }
  apply_option (with_ca_cert_file path) c = record c {
    ca_cert_paths = c.ca_cert_paths ++ (path ∷ []);
  }
  apply_option (with_server_name name) c = record c { server_name = name }
  apply_option with_insecure_skip_verify c = record c { insecure_skip_verify = true }
  apply_option (with_local_addr addr) c = record c { local_addr = addr }

  -- `for _, opt := range opts { opt(cfg) }`
  unfoldable pub apply_options :
      List (ConnectOption Full Pool Handler)
      → ConnectConfig Full Pool Handler
      → ConnectConfig Full Pool Handler
  apply_options [] c = c
  apply_options (opt ∷ opts) c = apply_options opts (apply_option opt c)

module _ {Pool : Type 0} (calls : Calls Pool) where
  -- One file, read into the pool.
  appended : List ℕ → Option Pool → Error ⊎ Pool
  appended path none = inl (wrap_text "parse CA cert %s" path (message "invalid PEM" []))
  appended path (some pool) = inr pool

  add_ca_cert : List ℕ → Error ⊎ List ℕ → Pool → Error ⊎ Pool
  add_ca_cert path (inl e) pool = inl (wrap_text "read CA cert %s" path e)
  add_ca_cert path (inr ca_cert) pool = appended path (calls.append_certs pool ca_cert)

  and_load : Error ⊎ Pool → (Pool → Error ⊎ Pool) → Error ⊎ Pool
  and_load (inl e) f = inl e
  and_load (inr pool) f = f pool

  unfoldable pub load_ca_certs : List (List ℕ) → Pool → Error ⊎ Pool
  unfolding appended add_ca_cert and_load
  load_ca_certs [] pool = inr pool
  load_ca_certs (path ∷ paths) pool =
      and_load (add_ca_cert path (calls.read_file path) pool) (load_ca_certs paths)

  -- The roots: the files', where there are any, else the caller's pool.
  with_pool : Error ⊎ Pool → Error ⊎ Option Pool
  with_pool (inl e) = inl e
  with_pool (inr pool) = inr (some pool)

  roots_of : List (List ℕ) → Option Pool → Error ⊎ Option Pool
  roots_of [] root_cas = inr root_cas
  roots_of (path ∷ paths) root_cas = with_pool (load_ca_certs (path ∷ paths) calls.new_cert_pool)

module _ {Full Pool Handler : Type 0} (calls : Calls Pool) where
  built : ConnectConfig Full Pool Handler → Error ⊎ Option Pool → Error ⊎ (Full ⊎ TlsSettings Pool)
  built cfg (inl e) = inl e
  built cfg (inr roots) = inr (
      inr (record {
        min_version = version_tls13;
        root_cas = roots;
        server_name = cfg.server_name;
        insecure_skip_verify = cfg.insecure_skip_verify;
      }))

  own_or_built : ConnectConfig Full Pool Handler → Option Full → Error ⊎ (Full ⊎ TlsSettings Pool)
  own_or_built cfg (some own) = inr (inl own)
  own_or_built cfg none = built cfg (roots_of calls cfg.ca_cert_paths cfg.root_cas)

  -- buildTLSConfig.
  unfoldable pub build_tls_config :
      ConnectConfig Full Pool Handler → Error ⊎ (Full ⊎ TlsSettings Pool)
  unfolding own_or_built built roots_of with_pool
  build_tls_config cfg = own_or_built cfg cfg.tls_config
