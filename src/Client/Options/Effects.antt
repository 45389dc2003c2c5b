-- ===== src/Client/Options/Effects.antt =====
-- What a sequence of options changes in what concerns TLS.
use sprut.Client.Options.{
  with_local_addr, with_server_name, with_root_cas, with_write_timeout, with_read_buf_size,
  with_dial_timeout, with_on_error, with_ca_cert_file, with_insecure_skip_verify, with_tls_config,
  with_keys, ConnectConfig, ConnectOption, apply_option, apply_options,
}
use mathlib.Core.List.{append_assoc, append-nil, ◌∷◌, [], List, Memᴰ}
use mathlib.Core.List.Memᴰ
use mathlib.Core.Path.{ap, sym, ◌≡◌, subst}
use sprut.Base.{refl, inr, ◌∙◌, inl, ◌⊎◌, ℕ, ◌++◌, true, some}

module _ {Full Pool Handler : Type 0} where
  -- The files that an option, or a sequence of them, names.
  ca_file : ConnectOption Full Pool Handler → List (List ℕ)
  ca_file (with_ca_cert_file path) = path ∷ []
  ca_file _ = []

  unfoldable pub ca_files : List (ConnectOption Full Pool Handler) → List (List ℕ)
  unfolding ca_file
  ca_files [] = []
  ca_files (o ∷ opts) = ca_file o ++ ca_files opts

  -- What becomes of `c` by an option, in what concerns TLS.
  record IsStep (o : ConnectOption Full Pool Handler) (c d : ConnectConfig Full Pool Handler)
      : Type 0 where
    insecure_only :
        d.insecure_skip_verify ≡ true
        → (c.insecure_skip_verify ≡ true) ⊎ (with_insecure_skip_verify ≡ o)
    insecure_kept : c.insecure_skip_verify ≡ true → d.insecure_skip_verify ≡ true
    own_only :
        (own : Full)
        → d.tls_config ≡ some own
        → (c.tls_config ≡ some own) ⊎ (with_tls_config (some own) ≡ o)
    paths : d.ca_cert_paths ≡ c.ca_cert_paths ++ ca_file o

  plain :
      (o : ConnectOption Full Pool Handler) (c d : ConnectConfig Full Pool Handler)
      → d.insecure_skip_verify ≡ c.insecure_skip_verify
      → d.tls_config ≡ c.tls_config
      → d.ca_cert_paths ≡ c.ca_cert_paths
      → ca_file o ≡ []
      → IsStep o c d
  plain o c d i t p f = record {
    insecure_only = λ h. inl (sym i ∙ h);
    insecure_kept = λ h. i ∙ h;
    own_only = λ own h. inl (sym t ∙ h);
    paths = p ∙ sym (append-nil c.ca_cert_paths) ∙ ap (λ l. c.ca_cert_paths ++ l) (sym f);
  }

  apply_option-IsStep :
      (o : ConnectOption Full Pool Handler) (c : ConnectConfig Full Pool Handler)
      → IsStep o c (apply_option o c)
  unfolding apply_option ca_file
  apply_option-IsStep (with_keys k) c =
      plain (with_keys k) c (record c { keys = k }) refl refl refl refl
  apply_option-IsStep (with_tls_config t) c = record {
    insecure_only = λ h. inl h;
    insecure_kept = λ h. h;
    own_only = λ own h. inr (ap with_tls_config (sym h));
    paths = sym (append-nil c.ca_cert_paths);
  }
  apply_option-IsStep (with_on_error f) c =
      plain (with_on_error f) c (record c { on_error = f }) refl refl refl refl
  apply_option-IsStep (with_dial_timeout d) c =
      plain (with_dial_timeout d) c (record c { dial_timeout = d }) refl refl refl refl
  apply_option-IsStep (with_read_buf_size n) c =
      plain (with_read_buf_size n) c (record c { read_buf_size = n }) refl refl refl refl
  apply_option-IsStep (with_write_timeout d) c =
      plain (with_write_timeout d) c (record c { write_timeout = d }) refl refl refl refl
  apply_option-IsStep (with_root_cas p) c =
      plain (with_root_cas p) c (record c { root_cas = p }) refl refl refl refl
  apply_option-IsStep (with_ca_cert_file p) c = record {
    insecure_only = λ h. inl h;
    insecure_kept = λ h. h;
    own_only = λ own h. inl h;
    paths = refl;
  }
  apply_option-IsStep (with_server_name n) c =
      plain (with_server_name n) c (record c { server_name = n }) refl refl refl refl
  apply_option-IsStep with_insecure_skip_verify c = record {
    insecure_only = λ h. inr refl;
    insecure_kept = λ h. refl;
    own_only = λ own h. inl h;
    paths = sym (append-nil c.ca_cert_paths);
  }
  apply_option-IsStep (with_local_addr a) c =
      plain (with_local_addr a) c (record c { local_addr = a }) refl refl refl refl

  pub insecure_only :
      (opts : List (ConnectOption Full Pool Handler)) (c : ConnectConfig Full Pool Handler)
      → (apply_options opts c).insecure_skip_verify ≡ true
      → (c.insecure_skip_verify ≡ true) ⊎ Memᴰ with_insecure_skip_verify opts
  unfolding apply_options
  insecure_only [] c h = inl h
  insecure_only (o ∷ opts) c h = elim (insecure_only opts (apply_option o c) h) [
    | inl k ↦ elim ((apply_option-IsStep o c).insecure_only k) [
      | inl kept ↦ inl kept
      | inr e ↦ inr (Memᴰ.head e)
    ]
    | inr m ↦ inr (Memᴰ.tail m)
  ]

  insecure_kept :
      (opts : List (ConnectOption Full Pool Handler)) (c : ConnectConfig Full Pool Handler)
      → c.insecure_skip_verify ≡ true
      → (apply_options opts c).insecure_skip_verify ≡ true
  unfolding apply_options
  insecure_kept [] c h = h
  insecure_kept (o ∷ opts) c h =
      insecure_kept opts (apply_option o c) ((apply_option-IsStep o c).insecure_kept h)

  pub insecure_set :
      (opts : List (ConnectOption Full Pool Handler)) (c : ConnectConfig Full Pool Handler)
      → Memᴰ with_insecure_skip_verify opts
      → (apply_options opts c).insecure_skip_verify ≡ true
  unfolding apply_options apply_option
  insecure_set [] c m = absurd (Memᴰ.not-nil m)
  insecure_set (o ∷ opts) c m = elim (Memᴰ.cases_cons m) [
    | inl e ↦
        subst (λ x. (apply_options opts (apply_option x c)).insecure_skip_verify ≡ true) e
          (insecure_kept opts (apply_option with_insecure_skip_verify c) refl)
    | inr rest ↦ insecure_set opts (apply_option o c) rest
  ]

  pub own_only :
      (opts : List (ConnectOption Full Pool Handler)) (c : ConnectConfig Full Pool Handler)
      (own : Full)
      → (apply_options opts c).tls_config ≡ some own
      → (c.tls_config ≡ some own) ⊎ Memᴰ (with_tls_config (some own)) opts
  unfolding apply_options
  own_only [] c own h = inl h
  own_only (o ∷ opts) c own h = elim (own_only opts (apply_option o c) own h) [
    | inl k ↦ elim ((apply_option-IsStep o c).own_only own k) [
      | inl kept ↦ inl kept
      | inr e ↦ inr (Memᴰ.head e)
    ]
    | inr m ↦ inr (Memᴰ.tail m)
  ]

  pub ca_cert_paths_so_far :
      (opts : List (ConnectOption Full Pool Handler)) (c : ConnectConfig Full Pool Handler)
      → (apply_options opts c).ca_cert_paths ≡ c.ca_cert_paths ++ ca_files opts
  unfolding apply_options ca_files
  ca_cert_paths_so_far [] c = sym (append-nil c.ca_cert_paths)
  ca_cert_paths_so_far (o ∷ opts) c =
      ca_cert_paths_so_far opts (apply_option o c)
      ∙ ap (λ l. l ++ ca_files opts) (apply_option-IsStep o c).paths
      ∙ append_assoc c.ca_cert_paths (ca_file o) (ca_files opts)
