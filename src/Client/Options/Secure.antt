-- ===== src/Client/Options/Secure.antt =====
-- What the options of Connect mean for TLS.
use mathlib.Core.Path.{subst}
use sprut.Client.Options.{
  ConnectConfig, ConnectOption, TlsSettings, Calls, default_config, apply_options, load_ca_certs,
  add_ca_cert, appended, and_load, with_pool, roots_of, built, own_or_built, build_tls_config,
  with_tls_config, with_insecure_skip_verify,
}
use sprut.Client.Options.Effects.{
  ca_files, insecure_only, insecure_set, own_only, ca_cert_paths_so_far,
}
use mathlib.Core.List.{◌∷◌, [], List, Memᴰ}
use sprut.Identity.{KeyPair}
use sprut.Base.{◌∙◌, refl, ◌↔◌, none, sym, inr, some, true, inl, ◌⊎◌, Option, ◌≡◌, ℕ}
use sprut.Io.{Error}
use sprut.Router.Tls.{version_tls13}
use sprut.Client.Options.Last.{
  root_cas_of, tls_config_of, server_name_of, apply_options-IsLast, IsLast, last_of,
}

module _ {Pool : Type 0} (calls : Calls Pool) where
  -- The files, in their order, one after the other taken into a pool.
  pub data Loads : List (List ℕ) → Pool → Pool → Type 0 where
    done : {pool : Pool} → Loads [] pool pool
    loads :
        {path pem : List ℕ} {paths : List (List ℕ)} {pool next last : Pool}
        → calls.read_file path ≡ inr pem
        → calls.append_certs pool pem ≡ some next
        → Loads paths next last
        → Loads (path ∷ paths) pool last

  -- A file that cannot be read, or in which there is no certificate.
  pub record IsBroken (path : List ℕ) : Type 0 where
    pub reason :
        ((x : Error) × (calls.read_file path ≡ inl x))
        ⊎ ((pem : List ℕ) × (pool : Pool) × (calls.read_file path ≡ inr pem)
            × (calls.append_certs pool pem ≡ none))

  -- Either all the files are taken, or one of them is broken.
  abbrev Taken : List (List ℕ) → Pool → Error ⊎ Pool → Type 0
  Taken paths pool o =
      ((last : Pool) × (o ≡ inr last) × Loads paths pool last)
      ⊎ ((e : Error) × (path : List ℕ) × (o ≡ inl e) × Memᴰ path paths × IsBroken path)

  load_ca_certs-Taken :
      (paths : List (List ℕ)) (pool : Pool) → Taken paths pool (load_ca_certs calls paths pool)
  unfolding load_ca_certs add_ca_cert and_load appended
  load_ca_certs-Taken [] pool = inl (pool, refl, done)
  load_ca_certs-Taken (path ∷ paths) pool =
      by_read (load_ca_certs-Taken paths) (calls.read_file path) refl
    where
      by_rest :
          (pem : List ℕ) (next : Pool)
          → calls.read_file path ≡ inr pem
          → calls.append_certs pool pem ≡ some next
          → Taken paths next (load_ca_certs calls paths next)
          → Taken (path ∷ paths) pool (load_ca_certs calls paths next)
      by_rest pem next r a (inl (last, e, l)) = inl (last, e, loads r a l)
      by_rest pem next r a (inr (e, p, q, m, b)) = inr (e, p, q, Memᴰ.tail m, b)

      by_append :
          ((next : Pool) → Taken paths next (load_ca_certs calls paths next))
          → (pem : List ℕ) (o : Option Pool) → calls.read_file path ≡ inr pem
          → calls.append_certs pool pem ≡ o
          → Taken
              (path ∷ paths)
              pool
              (and_load calls (appended calls path o) (load_ca_certs calls paths))
      by_append rest pem none r a =
          inr (_, path, refl, Memᴰ.head refl, record { reason = inr (pem, pool, r, a) })
      by_append rest pem (some next) r a = by_rest pem next r a (rest next)

      by_read :
          ((next : Pool) → Taken paths next (load_ca_certs calls paths next))
          → (o : Error ⊎ List ℕ) → calls.read_file path ≡ o
          → Taken
              (path ∷ paths)
              pool
              (and_load calls (add_ca_cert calls path o pool) (load_ca_certs calls paths))
      by_read rest (inl x) r = inr (_, path, refl, Memᴰ.head refl, record { reason = inl (x, r) })
      by_read rest (inr pem) r = by_append rest pem (calls.append_certs pool pem) r refl

module _ {Full Pool Handler : Type 0} (calls : Calls Pool) where
  -- A configuration for TLS as the options ask for it.
  pub record IsAsked (opts : List (ConnectOption Full Pool Handler)) (s : TlsSettings Pool)
      : Type 0 where
    pub only_13 : s.min_version ≡ version_tls13
    pub insecure_iff : (s.insecure_skip_verify ≡ true) ↔ Memᴰ with_insecure_skip_verify opts
    pub name : s.server_name ≡ last_of server_name_of [] opts
    pub roots :
        ((ca_files opts ≡ []) × (s.root_cas ≡ last_of root_cas_of none opts))
        ⊎ ((pool : Pool) × (s.root_cas ≡ some pool)
            × Loads calls (ca_files opts) calls.new_cert_pool pool)

  -- What buildTLSConfig comes to.
  pub data Choice (opts : List (ConnectOption Full Pool Handler))
      : Error ⊎ (Full ⊎ TlsSettings Pool) → Type 0 where
    callers_own :
        (own : Full)
        → last_of tls_config_of none opts ≡ some own
        → Memᴰ (with_tls_config (some own)) opts
        → Choice opts (inr (inl own))
    as_asked :
        (s : TlsSettings Pool)
        → last_of tls_config_of none opts ≡ none
        → IsAsked opts s
        → Choice opts (inr (inr s))
    broken_file :
        (e : Error) (path : List ℕ)
        → last_of tls_config_of none opts ≡ none
        → Memᴰ path (ca_files opts)
        → IsBroken calls path
        → Choice opts (inl e)

  -- With any options, the dial is given the caller's own configuration, where the last WithTLSConfig
  -- gave one; else one that demands TLS 1.3, that names the server as the last WithServerName, that
  -- checks the server's certificate unless WithInsecureSkipVerify is among the options, and whose
  -- roots, where files are named, are those of all the files in the order of the options, and else
  -- those of the last WithRootCAs; or Connect fails, because one of the files named cannot be read or has no
  -- certificate in it.
  pub build_tls_config-Choice :
      (keys : KeyPair) (opts : List (ConnectOption Full Pool Handler))
      → Choice opts (build_tls_config calls (apply_options opts (default_config keys)))
  unfolding build_tls_config own_or_built built roots_of with_pool default_config
  build_tls_config-Choice keys opts = by_own c.tls_config refl
    where
      c : ConnectConfig Full Pool Handler
      c = apply_options opts (default_config keys)

      last : IsLast opts keys c
      last = apply_options-IsLast opts keys

      asked :
          (roots : Option Pool)
          → c.tls_config ≡ none
          → (((ca_files opts ≡ []) × (roots ≡ last_of root_cas_of none opts))
              ⊎ ((pool : Pool) × (roots ≡ some pool)
                  × Loads calls (ca_files opts) calls.new_cert_pool pool))
          → Choice opts (built calls c (inr roots))
      asked roots own h = as_asked _ (sym last.tls_config ∙ own) (record {
        name = last.server_name;
        only_13 = refl;
        insecure_iff = (
          λ k. elim (insecure_only opts (default_config keys) k) [ inl e ↦ cc | inr m ↦ m ],
          insecure_set opts (default_config keys),
        );
        roots = h;
      })

      by_taken :
          (paths : List (List ℕ))
          → c.tls_config ≡ none
          → paths ≡ ca_files opts
          → (o : Error ⊎ Pool) → Taken calls paths calls.new_cert_pool o
          → Choice opts (built calls c (with_pool calls o))
      by_taken paths own e o (inl (pool, h, l)) =
          subst (λ x. Choice opts (built calls c (with_pool calls x))) (sym h)
            (asked (some pool) own
              (inr (pool, refl, subst (λ l. Loads calls l calls.new_cert_pool pool) e l)))
      by_taken paths own e o (inr (x, path, h, m, b)) =
          subst (λ x. Choice opts (built calls c (with_pool calls x))) (sym h)
            (broken_file x path (sym last.tls_config ∙ own) (subst (λ l. Memᴰ path l) e m) b)

      by_paths :
          (paths : List (List ℕ))
          → c.tls_config ≡ none
          → paths ≡ ca_files opts
          → Choice opts (built calls c (roots_of calls paths c.root_cas))
      by_paths [] own e = asked c.root_cas own (inl (sym e, last.root_cas))
      by_paths (path ∷ paths) own e =
          by_taken (path ∷ paths) own e (load_ca_certs calls (path ∷ paths) calls.new_cert_pool)
            (load_ca_certs-Taken calls (path ∷ paths) calls.new_cert_pool)

      by_own : (o : Option Full) → c.tls_config ≡ o → Choice opts (own_or_built calls c o)
      by_own none e = by_paths c.ca_cert_paths e (ca_cert_paths_so_far opts (default_config keys))
      by_own (some own) e = elim (own_only opts (default_config keys) own e) [
        | inl k ↦ cc
        | inr m ↦ callers_own own (sym last.tls_config ∙ e) m
      ]
