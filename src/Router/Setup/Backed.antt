-- ===== src/Router/Setup/Backed.antt =====
-- What Serve has behind it when it reaches its accept loop.
use sprut.Router.Setup
use sprut.Router.Setup.{Host, serve_setup, with_tls, with_broker, broker_config, close_listener}
use sprut.Router.Tls.{build_tls_config, settings_with}
use sprut.Broker.Connection.{broker_url, connect_result, new_broker}
use sprut.Config.{Config}
use sprut.Io.Ensures.{Ensures}
use sprut.Base.{refl, inr, inl, ◌⊎◌, ℕ, List, ◌≡◌, none, some, Option}
use sprut.Io.{err, ok, Error, Outcome}

module _ {Float Certificate : Type 0} (calls : Setup.Calls Certificate) (cfg : Config Float) where
  -- The certificates that the configuration names are loaded, and nats.Connect has connected to the
  -- addresses it names.
  pub record IsBacked : Type 0 where
    pub certificate : Certificate
    pub loaded : calls.load_key_pair cfg.tls.cert_file cfg.tls.key_file ≡ inr certificate
    pub connected :
        calls.connect
          (broker_url calls.default_url cfg.nats.urls)
          cfg.nats.reconnect_wait
          cfg.nats.max_reconnects
        ≡ none

  -- Serve reaches its accept loop only with its certificates loaded and NATS connected.
  pub serve_setup-IsBacked :
      (h : Host) → Ensures (λ _ _. IsBacked) (λ _ _. Unit {0}) (serve_setup calls cfg h)
  unfolding serve_setup with_tls build_tls_config settings_with close_listener with_broker
      broker_config new_broker connect_result
  serve_setup-IsBacked h = by_load (calls.load_key_pair cfg.tls.cert_file cfg.tls.key_file) refl
    where
      closing :
          (o : Outcome Host (List (List ℕ)))
          → IsBacked
          → Ensures (λ _ _. IsBacked) (λ _ _. Unit {0}) (close_listener o)
      closing (ok bufs t) b = b
      closing (err e t) b = tt

      by_connect :
          (certificate : Certificate)
          → calls.load_key_pair cfg.tls.cert_file cfg.tls.key_file ≡ inr certificate
          → (o : Option Error)
          → calls.connect
              (broker_url calls.default_url cfg.nats.urls)
              cfg.nats.reconnect_wait
              cfg.nats.max_reconnects
            ≡ o
          → Ensures
              (λ _ _. IsBacked)
              (λ _ _. Unit {0})
              (close_listener (with_broker calls cfg (connect_result o) h))
      by_connect certificate l (some x) e = tt
      by_connect certificate l none e =
          closing _ (record { certificate = certificate; loaded = l; connected = e })

      by_load :
          (o : Error ⊎ Certificate)
          → calls.load_key_pair cfg.tls.cert_file cfg.tls.key_file ≡ o
          → Ensures
              (λ _ _. IsBacked)
              (λ _ _. Unit {0})
              (with_tls calls cfg (settings_with cfg.tls.min_version o) h)
      by_load (inl x) e = tt
      by_load (inr certificate) e =
          by_connect certificate e
            (calls.connect (broker_url calls.default_url cfg.nats.urls) cfg.nats.reconnect_wait
              cfg.nats.max_reconnects)
            refl
