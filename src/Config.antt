-- ===== src/Config.antt =====
-- pkg/config. A float64 is of a parameter type; os.Stat, os.ReadFile, yaml.Unmarshal and the paths of
-- internal/appdir are parameters. Durations count nanoseconds.
pub mod Valid
pub mod Loading
use sprut.Base.{
  inr, inl, ◌⊎◌, not, none, ◌++◌, ◌||◌, some, negsuc, false, ◌<ℤ◌, [], ◌∷◌, true, pos,
  if◌then◌else◌, ℤ, Bool, codes, Option, String, ℕ, List,
}
use sprut.Io.{wrap, message_int, message, Error}

pub record ServerConfig : Type 0 where
  pub host : List ℕ
  pub port : ℤ
  pub server_id : List ℕ

pub record TlsConfig : Type 0 where
  pub cert_file : List ℕ
  pub key_file : List ℕ
  pub min_version : List ℕ

pub record NatsConfig : Type 0 where
  pub urls : List (List ℕ)
  pub reconnect_wait : ℤ
  pub max_reconnects : ℤ

pub record LimitsConfig (Float : Type 0) : Type 0 where
  pub max_connections : ℤ
  pub max_message_size : ℤ
  pub rate_limit_per_sec : Float
  pub rate_limit_burst : ℤ
  pub auth_timeout : ℤ
  pub challenge_ttl : ℤ

pub record LogConfig : Type 0 where
  pub level : List ℕ
  pub format : List ℕ
  pub file : List ℕ

-- `ready` says whether the channel Ready is set.
pub record Config (Float : Type 0) : Type 0 where
  pub server : ServerConfig
  pub tls : TlsConfig
  pub nats : NatsConfig
  pub limits : LimitsConfig Float
  pub log : LogConfig
  pub ready : Bool

abbrev pub is_empty_list {ℓ} : {A : Type ℓ} → List A → Bool
is_empty_list [] = true
is_empty_list (x ∷ xs) = false

-- `if test { errs = append(errs, e) }`
unfoldable pub check : Bool → Error → List Error
check test e = if test then e ∷ [] else []

abbrev pub missing_or : String → Option Error → List Error
missing_or c none = []
missing_or c (some e) = wrap c e ∷ []

-- The checks of a certificate's or a key's file.
unfoldable pub check_file : (List ℕ → Option Error) → String → String → List ℕ → List Error
check_file stat absent c path =
    if is_empty_list path then message absent [] ∷ [] else missing_or c (stat path)

-- `if path == "" { path = substitute }`
or_path : List ℕ → List ℕ → List ℕ
or_path substitute path = if is_empty_list path then substitute else path

module _ {Float : Type 0} where
  -- Validate: the errors that errors.Join joins, which is nil for none.
  unfoldable pub validate : (List ℕ → Option Error) → Config Float → List Error
  validate stat c =
      check (c.server.port <ℤ pos 1 || pos 65535 <ℤ c.server.port)
        (message_int "invalid server port: %d" c.server.port)
      ++ (check (is_empty_list c.server.server_id) (message "server_id is required" [])
          ++ (check_file stat "tls.cert_file is required" "tls.cert_file" c.tls.cert_file
              ++ (check_file stat "tls.key_file is required" "tls.key_file" c.tls.key_file
                  ++ (check (is_empty_list c.nats.urls) (message "nats.urls is required" [])
                      ++ (check (c.limits.max_connections <ℤ pos 1)
                            (message "limits.max_connections must be positive" [])
                          ++ (check (c.limits.max_message_size <ℤ pos 1)
                                (message "limits.max_message_size must be positive" [])
                              ++ (check (not (pos 0 <ℤ c.limits.auth_timeout))
                                    (message "limits.auth_timeout must be positive" [])
                                  ++ check (not (pos 0 <ℤ c.limits.challenge_ttl))
                                      (message "limits.challenge_ttl must be positive" []))))))))

  -- Default; `hundred` is the number 100 as a float64.
  unfoldable pub default_config : Float → Config Float
  default_config hundred = record {
    server = record { host = codes "0.0.0.0"; port = pos 8443; server_id = codes "goro-1" };
    tls = record { cert_file = []; key_file = []; min_version = codes "1.3" };
    nats = record {
      urls = codes "nats://localhost:4222" ∷ [];
      reconnect_wait = pos 2000000000;
      max_reconnects = negsuc 0;
    };
    limits = record {
      max_connections = pos 10000;
      max_message_size = pos 65536;
      rate_limit_per_sec = hundred;
      rate_limit_burst = pos 10;
      auth_timeout = pos 10000000000;
      challenge_ttl = pos 60000000000;
    };
    log = record { level = codes "debug"; format = codes "json"; file = [] };
    ready = false;
  }

  -- resolvePaths, with CertPath, KeyPath and LogFilePath of internal/appdir.
  unfoldable pub resolve_paths : List ℕ → List ℕ → List ℕ → Config Float → Config Float
  unfolding or_path
  resolve_paths cert_path key_path log_path c = record c {
    tls = record c.tls {
      cert_file = or_path cert_path c.tls.cert_file;
      key_file = or_path key_path c.tls.key_file;
    };
    log = record c.log { file = or_path log_path c.log.file };
  }

-- The error of Load: of a call, or what Validate found, joined and wrapped as "validate config".
pub data LoadError : Type 0 where
  failed : Error → LoadError
  invalid : List Error → LoadError

-- What Load calls. Unmarshal writes over the configuration that it is given.
pub record Calls (Float : Type 0) : Type 0 where
  pub read_file : List ℕ → Error ⊎ List ℕ
  pub unmarshal : List ℕ → Config Float → Error ⊎ Config Float
  pub stat : List ℕ → Option Error
  pub cert_path : List ℕ
  pub key_path : List ℕ
  pub log_path : List ℕ
  pub hundred : Float

module _ {Float : Type 0} (calls : Calls Float) where
  abbrev pub resolved : Config Float → Config Float
  resolved = resolve_paths calls.cert_path calls.key_path calls.log_path

  judged : Config Float → List Error → LoadError ⊎ Config Float
  judged c [] = inr c
  judged c (e ∷ es) = inl (invalid (e ∷ es))

  parsed : Error ⊎ Config Float → LoadError ⊎ Config Float
  parsed (inl e) = inl (failed (wrap "parse config" e))
  parsed (inr c) = judged (resolved c) (validate calls.stat (resolved c))

  read : Error ⊎ List ℕ → LoadError ⊎ Config Float
  read (inl e) = inl (failed (wrap "read config file" e))
  read (inr bytes) = parsed (calls.unmarshal bytes (default_config calls.hundred))

  -- Load.
  unfoldable pub load : List ℕ → LoadError ⊎ Config Float
  unfolding judged parsed read
  load path = read (calls.read_file path)
