-- ===== src/Router/Tls/Versions.antt =====
-- Which TLS versions the server speaks.
use sprut.Router.Tls.{build_tls_config, settings_with, TlsSettings, version_tls12, version_tls13}
use sprut.Config.{TlsConfig}
use sprut.Base.{
  ◌≢◌, same_text_refl, ◌∙◌, sym, ap, false, eq_of_same_text, arith, refl, if◌then◌else◌, same_text,
  Bool, inl, inr, true, ◌≤◌, ◌⊎◌, codes, ◌↔◌, ℕ, List, ◌≡◌,
}
use sprut.Io.{wrap, Error}

-- What the configuration's min_version means for the settings.
pub record IsRestricted {Certificate : Type 0} (cfg : TlsConfig) (t : TlsSettings Certificate)
    : Type 0 where
  pub only_13 : (t.min_version ≡ version_tls13) ↔ (cfg.min_version ≡ codes "1.3")
  pub else_12 : cfg.min_version ≢ codes "1.3" → t.min_version ≡ 0x0303
  pub not_older : version_tls12 ≤ t.min_version
  pub no_tickets : t.session_tickets_disabled ≡ true

version_le : (b : Bool) → version_tls12 ≤ (if b then version_tls13 else version_tls12)
version_le true = omega arith
version_le false = omega arith

version_else :
    (b : Bool) (v : List ℕ)
    → same_text v (codes "1.3") ≡ b
    → v ≢ codes "1.3"
    → (if b then version_tls13 else version_tls12) ≡ 0x0303
version_else true v e other = absurd (other (eq_of_same_text v (codes "1.3") e))
version_else false v e other = refl

version_iff :
    (b : Bool) (v : List ℕ)
    → same_text v (codes "1.3") ≡ b
    → ((if b then version_tls13 else version_tls12) ≡ version_tls13) ↔ (v ≡ codes "1.3")
version_iff true v e = (λ _. eq_of_same_text v (codes "1.3") e, λ _. refl)
version_iff false v e = (λ h. absurd (apart h), differs)
  where
    apart : version_tls12 ≡ version_tls13 → ⊥
    apart h = omega arith

    now : v ≡ codes "1.3" → false ≡ true
    now h = sym e ∙ ap (λ w. same_text w (codes "1.3")) h ∙ same_text_refl (codes "1.3")

    differs : v ≡ codes "1.3" → version_tls12 ≡ version_tls13
    differs h = cc (now h)

-- Where the certificates load, and only there, the server has settings; with them it insists on TLS 1.3
-- exactly where the configuration says "1.3", on TLS 1.2 in every other case, and it never resumes by
-- tickets.
pub build_tls_config-IsRestricted :
    {Certificate : Type 0} (load : List ℕ → List ℕ → Error ⊎ Certificate) (cfg : TlsConfig)
    → ((cert : Certificate) × (t : TlsSettings Certificate) × (load cfg.cert_file cfg.key_file
          ≡ inr cert)
        × (build_tls_config load cfg ≡ inr t)
        × (t.certificate ≡ cert)
        × IsRestricted cfg t)
      ⊎ ((e : Error) × (load cfg.cert_file cfg.key_file ≡ inl e)
          × (build_tls_config load cfg ≡ inl (wrap "load certificates" e)))
unfolding build_tls_config
build_tls_config-IsRestricted {Certificate} load cfg = by_load (load cfg.cert_file cfg.key_file)
  where
    by_load :
        (o : Error ⊎ Certificate)
        → ((cert : Certificate) × (t : TlsSettings Certificate) × (o ≡ inr cert)
            × (settings_with cfg.min_version o ≡ inr t)
            × (t.certificate ≡ cert)
            × IsRestricted cfg t)
          ⊎ ((e : Error) × (o ≡ inl e)
              × (settings_with {Certificate = Certificate} cfg.min_version o
                  ≡ inl (wrap "load certificates" e)))
    by_load (inl e) = inr (e, refl, refl)
    by_load (inr cert) = inl (
      cert,
      _,
      refl,
      refl,
      refl,
      record {
        only_13 = version_iff (same_text cfg.min_version (codes "1.3")) cfg.min_version refl;
        else_12 = version_else (same_text cfg.min_version (codes "1.3")) cfg.min_version refl;
        not_older = version_le (same_text cfg.min_version (codes "1.3"));
        no_tickets = refl;
      },
    )
