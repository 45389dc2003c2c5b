-- ===== src/Config/Loading.antt =====
-- When Load gives a configuration, and which.
use mathlib.Core.Path.{sym, ap, subst}
use sprut.Config.{
  or_path, resolve_paths, validate, resolved, default_config, parsed, read, load, judged, Calls,
  Config,
}
use sprut.Base.{
  ◌≢◌, codes, pos, negsuc, false, ◌*◌, ◌^◌, refl, ◌∷◌, inl, ◌⊎◌, [], ◌↔◌, inr, ◌≡◌, ℕ, List,
}
use sprut.Io.{Error}
use sprut.Config.Valid.{validate_iff, IsValid}

-- The defaults that Default documents, written out.
abbrev pub defaults : {Float : Type 0} → Float → Config Float
defaults hundred = record {
  server = record { host = codes "0.0.0.0"; port = pos 8443; server_id = codes "goro-1" };
  tls = record { cert_file = []; key_file = []; min_version = codes "1.3" };
  nats = record {
    urls = codes "nats://localhost:4222" ∷ [];
    reconnect_wait = pos (2 * 10 ^ 9);
    max_reconnects = negsuc 0;
  };
  limits = record {
    max_connections = pos 10000;
    max_message_size = pos (64 * 1024);
    rate_limit_per_sec = hundred;
    rate_limit_burst = pos 10;
    auth_timeout = pos (10 * 10 ^ 9);
    challenge_ttl = pos (60 * 10 ^ 9);
  };
  log = record { level = codes "debug"; format = codes "json"; file = [] };
  ready = false;
}

-- A path that was left empty is the substitute, any other is kept.
abbrev pub IsFilled : List ℕ → List ℕ → List ℕ → Type 0
IsFilled substitute before after =
    ((before ≡ []) × (after ≡ substitute)) ⊎ ((before ≢ []) × (after ≡ before))

or_path-IsFilled :
    (substitute before : List ℕ) → IsFilled substitute before (or_path substitute before)
unfolding or_path
or_path-IsFilled substitute [] = inl (refl, refl)
or_path-IsFilled substitute (c ∷ path) = inr (λ h. cc, refl)

IsFilled-or_path :
    (substitute before after : List ℕ)
    → IsFilled substitute before after
    → or_path substitute before ≡ after
unfolding or_path
IsFilled-or_path substitute [] after (inl (e, h)) = sym h
IsFilled-or_path substitute [] after (inr (n, h)) = absurd (n refl)
IsFilled-or_path substitute (c ∷ path) after (inl (e, h)) = cc
IsFilled-or_path substitute (c ∷ path) after (inr (n, h)) = sym h

module _ {Float : Type 0} (calls : Calls Float) where
  -- A configuration with the paths of the program's directory where it names none: the certificate,
  -- the key and the log file, each for its own.
  pub record IsResolved (written c : Config Float) : Type 0 where
    pub cert : IsFilled calls.cert_path written.tls.cert_file c.tls.cert_file
    pub key : IsFilled calls.key_path written.tls.key_file c.tls.key_file
    pub log_file : IsFilled calls.log_path written.log.file c.log.file
    pub min_version : c.tls.min_version ≡ written.tls.min_version
    pub level : c.log.level ≡ written.log.level
    pub format : c.log.format ≡ written.log.format
    pub server : c.server ≡ written.server
    pub nats : c.nats ≡ written.nats
    pub limits : c.limits ≡ written.limits
    pub ready : c.ready ≡ written.ready

  resolved-IsResolved : (written : Config Float) → IsResolved written (resolved calls written)
  unfolding resolve_paths
  resolved-IsResolved w = record {
    cert = or_path-IsFilled calls.cert_path w.tls.cert_file;
    key = or_path-IsFilled calls.key_path w.tls.key_file;
    log_file = or_path-IsFilled calls.log_path w.log.file;
    min_version = refl;
    level = refl;
    format = refl;
    server = refl;
    nats = refl;
    limits = refl;
    ready = refl;
  }

  IsResolved-resolved :
      (written c : Config Float) → IsResolved written c → resolved calls written ≡ c
  unfolding resolve_paths
  IsResolved-resolved w c r =
      let certs = IsFilled-or_path calls.cert_path w.tls.cert_file c.tls.cert_file r.cert in
      let keys = IsFilled-or_path calls.key_path w.tls.key_file c.tls.key_file r.key in
      let logs = IsFilled-or_path calls.log_path w.log.file c.log.file r.log_file in
      λ i. record {
        server = sym r.server i;
        tls = record { cert_file = certs i; key_file = keys i; min_version = sym r.min_version i };
        nats = sym r.nats i;
        limits = sym r.limits i;
        log = record { level = sym r.level i; format = sym r.format i; file = logs i };
        ready = sym r.ready i;
      }

  judged_iff :
      (c d : Config Float) (es : List Error) → (judged calls c es ≡ inr d) ↔ ((es ≡ []) × (c ≡ d))
  unfolding judged
  judged_iff c d [] = (λ h. (refl, cc), λ (e, h). ap inr h)
  judged_iff c d (e ∷ es) = (λ h. cc, λ (f, h). cc)

  -- How a configuration comes about: the file is read and parsed over the defaults, empty paths are
  -- filled in, and the result is valid.
  pub record Source (path : List ℕ) (c : Config Float) : Type 0 where
    pub bytes : List ℕ
    pub written : Config Float
    pub is_read : calls.read_file path ≡ inr bytes
    pub is_parsed : calls.unmarshal bytes (defaults calls.hundred) ≡ inr written
    pub is_resolved : IsResolved written c
    pub is_valid : IsValid calls.stat c

  -- Load gives a configuration exactly where the file is read and parsed over the defaults and the
  -- result, with the paths of certificate, key and log file that it left empty, and only these, put to
  -- those of the program's directory, has all that Validate demands; and it gives that.
  pub load_iff : (path : List ℕ) (c : Config Float) → (load calls path ≡ inr c) ↔ Source path c
  unfolding load read parsed default_config
  load_iff path c = (
    by_read (calls.read_file path) refl,
    λ s.
        rw (s.is_read, s.is_parsed)
          ((judged_iff (resolved calls s.written) c
              (validate calls.stat (resolved calls s.written))).1
            (
              subst (λ d. validate calls.stat d ≡ [])
                  (sym (IsResolved-resolved s.written c s.is_resolved))
                  ((validate_iff calls.stat c).1 s.is_valid),
              IsResolved-resolved s.written c s.is_resolved,
            )),
  )
    where
      by_parsed :
          (bytes : List ℕ) (o : Error ⊎ Config Float)
          → calls.read_file path ≡ inr bytes
          → calls.unmarshal bytes (default_config calls.hundred) ≡ o
          → parsed calls o ≡ inr c
          → Source path c
      by_parsed bytes (inl e) h k l = cc
      by_parsed bytes (inr w) h k l =
          let (valid, same) = (judged_iff _ c (validate calls.stat (resolved calls w))).0 l in
          record {
            bytes = bytes;
            written = w;
            is_read = h;
            is_parsed = k;
            is_resolved = subst (IsResolved w) same (resolved-IsResolved w);
            is_valid = subst (IsValid calls.stat) same ((validate_iff calls.stat _).0 valid);
          }

      by_read :
          (o : Error ⊎ List ℕ) → calls.read_file path ≡ o → read calls o ≡ inr c → Source path c
      by_read (inl e) h l = cc
      by_read (inr bytes) h l =
          by_parsed bytes (calls.unmarshal bytes (default_config calls.hundred)) h refl l
