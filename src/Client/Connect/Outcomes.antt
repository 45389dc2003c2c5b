-- ===== src/Client/Connect/Outcomes.antt =====
-- When Connect gives a connection, and what it leaves open where it does not.
use mathlib.Core.Path.{subst}
use sprut.Client.Connect.{
  Calls, Session, Dialled, connect, with_identity, configured, with_tls, dialled, authenticated,
  started,
}
use sprut.Client.Options.{
  ConnectOption, ConnectConfig, TlsSettings, default_config, apply_options, build_tls_config,
}
use sprut.Client.Options.Secure.{Choice, build_tls_config-Choice}
use sprut.Client.Auth.{authenticate}
use sprut.Protocol.ChannelBinding.{ConnectionState}
use sprut.Identity.{KeyPair}
use sprut.Io.Conn.{Conn}
use sprut.Io.Ensures.{Ensures}
use sprut.Base.{refl, inl, ◌∙◌, sym, ap, negsuc, pos, ℤ, some, true, inr, none, ◌≡◌, ◌⊎◌, ℕ, List}
use sprut.Io.{err, Outcome, panic, ok, Error}
use sprut.Client.Options.Last.{apply_options-IsLast, IsLast}

module _ {Full Pool Handler : Type 0} (calls : Calls Full Pool) (addr : List ℕ) (now : ℕ)
    (opts : List (ConnectOption Full Pool Handler)) where
  -- A session on a connection that was dialled with a configuration that the options ask for, and
  -- on which the client has authenticated.
  pub record IsConnected (s : Session Full Pool Handler) (left : Dialled) : Type 0 where
    pub generated : KeyPair
    pub is_generated : calls.generate ≡ inr generated
    pub is_configured : s.cfg ≡ apply_options opts (default_config generated)
    pub is_last : IsLast opts generated s.cfg
    pub tls : Full ⊎ TlsSettings Pool
    pub is_chosen : Choice calls.files opts (inr tls)
    pub conn : Conn
    pub state : ConnectionState
    pub is_dialled : calls.dial s.cfg.dial_timeout s.cfg.local_addr addr tls ≡ inr (conn, state)
    pub after : Conn
    pub is_authenticated :
        authenticate calls.sign s.cfg.keys state now s.cfg.dial_timeout conn ≡ ok tt after
    pub is_left : left ≡ some after
    pub is_buffered : s.cfg.read_buf_size ≡ pos s.capacity

  -- No connection was made, or it is closed again; or the options ask for a buffer of negative size.
  pub data IsUnconnected (e : Error) : Dialled → Type 0 where
    not_dialled : IsUnconnected e none
    closed_again : (c : Conn) → c.closed ≡ true → IsUnconnected e (some c)
    panicked :
        (keys : KeyPair) (n : ℕ) (c : Conn)
        → (apply_options opts (default_config keys)).read_buf_size ≡ negsuc n
        → e ≡ panic "makechan: size out of range"
        → IsUnconnected e (some c)

  -- Connect gives a session only on a connection that was dialled with the configuration that the
  -- options ask for, each of them as it was last given or by its default, and on which authenticate
  -- succeeded, with a channel of the size asked for; in every
  -- other case, unless that size is negative, it leaves no connection open.
  pub connect-IsConnected : Ensures IsConnected IsUnconnected (connect calls addr now opts)
  unfolding connect with_identity configured with_tls dialled authenticated started
  connect-IsConnected = by_keys calls.generate refl
    where
      by_size :
          (keys : KeyPair) (t : Full ⊎ TlsSettings Pool) (c d : Conn) (state : ConnectionState)
          → calls.generate ≡ inr keys
          → Choice calls.files opts (inr t)
          → (cfg : ConnectConfig Full Pool Handler) → cfg ≡ apply_options opts (default_config keys)
          → calls.dial cfg.dial_timeout cfg.local_addr addr t ≡ inr (c, state)
          → authenticate calls.sign cfg.keys state now cfg.dial_timeout c ≡ ok tt d
          → (z : ℤ) → cfg.read_buf_size ≡ z
          → Ensures IsConnected IsUnconnected (started cfg z d)
      by_size keys t c d state g ch cfg e dial auth (pos n) h = record {
        generated = keys;
        is_generated = g;
        is_configured = e;
        is_last = subst (IsLast opts keys) (sym e) (apply_options-IsLast opts keys);
        tls = t;
        is_chosen = ch;
        conn = c;
        state = state;
        is_dialled = dial;
        after = d;
        is_authenticated = auth;
        is_left = refl;
        is_buffered = h;
      }
      by_size keys t c d state g ch cfg e dial auth (negsuc n) h =
          panicked keys n d (ap (λ f. f.read_buf_size) (sym e) ∙ h) refl

      by_auth :
          (keys : KeyPair) (t : Full ⊎ TlsSettings Pool) (c : Conn) (state : ConnectionState)
          → calls.generate ≡ inr keys
          → Choice calls.files opts (inr t)
          → (cfg : ConnectConfig Full Pool Handler) → cfg ≡ apply_options opts (default_config keys)
          → calls.dial cfg.dial_timeout cfg.local_addr addr t ≡ inr (c, state)
          → (o : Outcome Conn (Unit {0}))
          → authenticate calls.sign cfg.keys state now cfg.dial_timeout c ≡ o
          → Ensures IsConnected IsUnconnected (authenticated cfg o)
      by_auth keys t c state g ch cfg e dial (ok u d) h =
          by_size keys t c d state g ch cfg e dial h cfg.read_buf_size refl
      by_auth keys t c state g ch cfg e dial (err x d) h =
          closed_again (record d { closed = true }) refl

      by_dial :
          (keys : KeyPair) (t : Full ⊎ TlsSettings Pool)
          → calls.generate ≡ inr keys
          → Choice calls.files opts (inr t)
          → (cfg : ConnectConfig Full Pool Handler) → cfg ≡ apply_options opts (default_config keys)
          → (o : Error ⊎ (Conn × ConnectionState))
          → calls.dial cfg.dial_timeout cfg.local_addr addr t ≡ o
          → Ensures IsConnected IsUnconnected (dialled calls addr now cfg o)
      by_dial keys t g ch cfg e (inl x) h = not_dialled
      by_dial keys t g ch cfg e (inr (c, state)) h =
          by_auth keys t c state g ch cfg e h
            (authenticate calls.sign cfg.keys state now cfg.dial_timeout c) refl

      by_tls :
          (keys : KeyPair)
          → calls.generate ≡ inr keys
          → (cfg : ConnectConfig Full Pool Handler) → cfg ≡ apply_options opts (default_config keys)
          → (o : Error ⊎ (Full ⊎ TlsSettings Pool)) → Choice calls.files opts o
          → Ensures IsConnected IsUnconnected (with_tls calls addr now cfg o)
      by_tls keys g cfg e (inl x) ch = not_dialled
      by_tls keys g cfg e (inr t) ch =
          by_dial keys t g ch cfg e (calls.dial cfg.dial_timeout cfg.local_addr addr t) refl

      by_keys :
          (o : Error ⊎ KeyPair)
          → calls.generate ≡ o
          → Ensures IsConnected IsUnconnected (with_identity calls addr now opts o)
      by_keys (inl x) g = not_dialled
      by_keys (inr keys) g =
          by_tls keys g (apply_options opts (default_config keys)) refl
            (build_tls_config calls.files (apply_options opts (default_config keys)))
            (build_tls_config-Choice calls.files keys opts)
