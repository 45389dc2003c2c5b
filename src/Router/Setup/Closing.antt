-- ===== src/Router/Setup/Closing.antt =====
-- What becomes of the listener where Serve fails before its accept loop.
use sprut.Router.Setup
use sprut.Router.Setup.{Host, serve_setup, with_tls, close_listener}
use sprut.Router.Tls.{build_tls_config, settings_with}
use sprut.Config.{Config}
use sprut.Io.Ensures.{Ensures}
use sprut.Base.{refl, inr, inl, ◌⊎◌, ℕ, List, false, ◌≡◌}
use sprut.Io.{err, ok, Error, Outcome}

-- Serve, where it fails, has closed the listener, unless it was the certificates that did not load.
module _ {Float Certificate : Type 0} (calls : Setup.Calls Certificate) (cfg : Config Float) where
  abbrev pub IsClosed : Host → Type 0
  IsClosed h =
      (h.listener_open ≡ false)
      ⊎ ((x : Error) × (calls.load_key_pair cfg.tls.cert_file cfg.tls.key_file ≡ inl x))

  pub serve_setup-IsClosed :
      (h : Host) → Ensures (λ _ _. Unit {0}) (λ _ t. IsClosed t) (serve_setup calls cfg h)
  unfolding serve_setup with_tls build_tls_config settings_with close_listener
  serve_setup-IsClosed h = by_load (calls.load_key_pair cfg.tls.cert_file cfg.tls.key_file) refl
    where
      closing :
          (o : Outcome Host (List (List ℕ)))
          → Ensures (λ _ _. Unit {0}) (λ _ t. IsClosed t) (close_listener o)
      closing (ok bufs t) = tt
      closing (err e t) = inl refl

      by_load :
          (o : Error ⊎ Certificate)
          → calls.load_key_pair cfg.tls.cert_file cfg.tls.key_file ≡ o
          → Ensures
              (λ _ _. Unit {0})
              (λ _ t. IsClosed t)
              (with_tls calls cfg (settings_with cfg.tls.min_version o) h)
      by_load (inl x) e = inr (x, e)
      by_load (inr cert) e = closing _
