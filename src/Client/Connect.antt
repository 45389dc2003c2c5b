-- ===== src/Client/Connect.antt =====
-- Connect of pkg/client/client.go. Making keys, files, the dial and ed25519.Sign are parameters.
pub mod Outcomes
pub mod Live
use sprut.Identity.{KeyPair}
use sprut.Client.Options
use sprut.Client.Options.{
  ConnectOption, ConnectConfig, TlsSettings, default_config, apply_options, build_tls_config,
}
use sprut.Client.Auth.{authenticate}
use sprut.Protocol.ChannelBinding.{ConnectionState}
use sprut.Io.Conn.{Conn}
use sprut.Io.{panic, wrap, err, ok, Error, Outcome}
use sprut.Base.{inr, none, negsuc, some, inl, pos, ◌⊎◌, true, List, ℕ, ℤ, Option}

-- tls.DialWithDialer with its dialer's fields, identity.Generate, and what buildTLSConfig calls. The
-- connection comes with its TLS state.
pub record Calls (Full Pool : Type 0) : Type 0 where
  pub generate : Error ⊎ KeyPair
  pub files : Options.Calls Pool
  pub dial :
      ℕ → Option (List ℕ) → List ℕ → Full ⊎ TlsSettings Pool → Error ⊎ (Conn × ConnectionState)
  pub sign : List ℕ → List ℕ → List ℕ

-- What Connect hands to runLoop, and the capacity of the channel that it returns.
pub record Session (Full Pool Handler : Type 0) : Type 0 where
  pub cfg : ConnectConfig Full Pool Handler
  pub capacity : ℕ

-- The connection that Connect has dialled, if it has come so far.
abbrev pub Dialled : Type 0
Dialled = Option Conn

-- Close has no use for its error.
abbrev close_conn : Conn → Conn
close_conn c = record c { closed = true }

module _ {Full Pool Handler : Type 0} where
  -- `make(chan *message.Message, cfg.readBufSize)`: a negative size panics.
  started : ConnectConfig Full Pool Handler → ℤ → Conn → Outcome Dialled (Session Full Pool Handler)
  started cfg (pos n) c = ok (record { cfg = cfg; capacity = n }) (some c)
  started cfg (negsuc n) c = err (panic "makechan: size out of range") (some c)

  authenticated :
      ConnectConfig Full Pool Handler
      → Outcome Conn (Unit {0})
      → Outcome Dialled (Session Full Pool Handler)
  authenticated cfg (ok a c) = started cfg cfg.read_buf_size c
  authenticated cfg (err e c) = err (wrap "authenticate" e) (some (close_conn c))

  module _ (calls : Calls Full Pool) (addr : List ℕ) (now : ℕ) where
    dialled :
        ConnectConfig Full Pool Handler
        → Error ⊎ (Conn × ConnectionState)
        → Outcome Dialled (Session Full Pool Handler)
    dialled cfg (inl e) = err (wrap "dial" e) none
    dialled cfg (inr (c, tls)) =
        authenticated cfg (authenticate calls.sign cfg.keys tls now cfg.dial_timeout c)

    with_tls :
        ConnectConfig Full Pool Handler
        → Error ⊎ (Full ⊎ TlsSettings Pool)
        → Outcome Dialled (Session Full Pool Handler)
    with_tls cfg (inl e) = err (wrap "build TLS config" e) none
    with_tls cfg (inr t) = dialled cfg (calls.dial cfg.dial_timeout cfg.local_addr addr t)

    configured : ConnectConfig Full Pool Handler → Outcome Dialled (Session Full Pool Handler)
    configured cfg = with_tls cfg (build_tls_config calls.files cfg)

    with_identity :
        List (ConnectOption Full Pool Handler)
        → Error ⊎ KeyPair
        → Outcome Dialled (Session Full Pool Handler)
    with_identity opts (inl e) = err (wrap "generate keys" e) none
    with_identity opts (inr keys) = configured (apply_options opts (default_config keys))

    -- Connect; `now` is the clock when it authenticates.
    unfoldable pub connect :
        List (ConnectOption Full Pool Handler) → Outcome Dialled (Session Full Pool Handler)
    unfolding with_identity configured with_tls dialled authenticated started
    connect opts = with_identity opts calls.generate
