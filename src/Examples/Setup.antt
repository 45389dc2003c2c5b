-- ===== src/Examples/Setup.antt =====
-- The start of the server, and of the application's directory, at concrete inputs.
use sprut.Router.Tls.{build_tls_config}
use sprut.Router.Tls.Versions.{IsRestricted, build_tls_config-IsRestricted}
use sprut.Router.Tls.{TlsSettings}
use sprut.Router.Setup.{Host, Calls, serve_setup}
use sprut.Router.Setup.Buffers.{IsServing, IsRefused, serve_setup-IsServing}
use sprut.Config
use sprut.Config.{Config}
use sprut.Io.Ensures.{Ensures}
use sprut.Appdir.{
  Disk, Source, init, ensure_default_config, ensure_certs, generate_self_signed_cert, make_dirs,
  dir, config_path, certs_dir, logs_dir, cert_path, key_path,
}
use sprut.Appdir.Keeping.{IsDisk, Kept}
use sprut.Appdir.Again.{IsReady, init-IsReady_twice}
use sprut.Base.{
  ◌||◌, same_text_refl, some, same_text, ◌+◌, ◌↔◌, ap, ◌∷◌, if◌then◌else◌, Bool-cases, ◌++◌, Bool,
  inl, inr, ◌≡◌, ◌⊎◌, none, [], refl, false, ℕ, true, List, codes,
}
use sprut.Io.{not_exist, eof, ok, wrap, Error}

-- A certificate is its file's name.
abbrev loaded_pair : List ℕ → List ℕ → Error ⊎ List ℕ
loaded_pair cert_file key_file = inr cert_file

abbrev pub server_calls : Calls (List ℕ)
server_calls = record {
  load_key_pair = loaded_pair;
  default_url = codes "nats://127.0.0.1:4222";
  connect = λ url wait max. none;
}

abbrev pub stopped_host : Host
stopped_host = record { listener_open = true; broker_open = false; ready = false }

abbrev pub ten_thousand : Config (Unit {0})
ten_thousand = Config.default_config (tt {0})

build_tls_config-IsRestricted_example :
    ((cert : List ℕ) × (t : TlsSettings (List ℕ)) × (loaded_pair [] [] ≡ inr cert)
      × (build_tls_config loaded_pair ten_thousand.tls ≡ inr t)
      × (t.certificate ≡ cert)
      × IsRestricted ten_thousand.tls t)
    ⊎ ((e : Error) × (loaded_pair [] [] ≡ inl e)
        × (build_tls_config loaded_pair ten_thousand.tls ≡ inl (wrap "load certificates" e)))
unfolding Config.default_config
build_tls_config-IsRestricted_example = build_tls_config-IsRestricted loaded_pair ten_thousand.tls

serve_setup-IsServing_example :
    Ensures
      (IsServing 10000 (codes "goro-1"))
      (IsRefused server_calls ten_thousand)
      (serve_setup server_calls ten_thousand stopped_host)
unfolding Config.default_config
serve_setup-IsServing_example =
    serve_setup-IsServing server_calls ten_thousand 10000 stopped_host refl refl

-- A disk is the names on it.
has : List ℕ → List (List ℕ) → Bool
has name [] = false
has name (n ∷ names) = same_text n name || has name names

add : List ℕ → List (List ℕ) → List (List ℕ)
add name names = if has name names then names else name ∷ names

pub names_disk : Disk (List (List ℕ))
names_disk = record {
  config_home = codes "/home/.config";
  join = λ a b. a ++ (b'/' ∷ b);
  mkdir_all = λ d s. ok tt (add d s);
  stat = λ f s. if has f s then none else some not_exist;
  write_file = λ f bytes s. ok tt (add f s);
  open_truncated = λ f s. ok tt (add f s);
  pem_encode = λ f kind bytes s. ok tt s;
}

IsThere : List ℕ → List (List ℕ) → Type 0
IsThere name names = has name names ≡ true

has-add : (name : List ℕ) (names : List (List ℕ)) → has name (add name names) ≡ true
unfolding add has
has-add name names = elim (Bool-cases (has name names)) [
  | inl there ↦ rw there there
  | inr absent ↦ rw (absent, same_text_refl name) refl
]

has-kept :
    (name other : List ℕ) (names : List (List ℕ))
    → has name names ≡ true
    → has name (add other names) ≡ true
unfolding add has
has-kept name other names h = elim (Bool-cases (has other names)) [
  | inl there ↦ rw there h
  | inr absent ↦ rw (absent, h) (or_true (same_text other name))
]
  where
    or_true : (b : Bool) → (b || true) ≡ true
    or_true true = refl
    or_true false = refl

add_again : (name : List ℕ) (names : List (List ℕ)) → has name names ≡ true → add name names ≡ names
unfolding add
add_again name names h = rw h refl

stat-has :
    (name : List ℕ) (names : List (List ℕ))
    → (names_disk.stat name names ≡ none) ↔ (has name names ≡ true)
unfolding names_disk
stat-has name names = elim (Bool-cases (has name names)) [
  | inl there ↦ rw there (λ _. refl, λ _. refl)
  | inr absent ↦ rw absent (λ h. cc, λ h. cc)
]

add-Kept : (name : List ℕ) (names : List (List ℕ)) → Kept names_disk IsThere names (add name names)
unfolding IsThere
add-Kept name names = record {
  dirs = λ d h. has-kept d name names h;
  files = λ f h. (stat-has f (add name names)).1 (has-kept f name names ((stat-has f names).0 h));
}

names_disk-IsDisk : IsDisk names_disk IsThere
unfolding names_disk IsThere
names_disk-IsDisk = record {
  made = λ d s. (add-Kept d s, has-add d s);
  made_already = λ d s h. ap (ok tt) (add_again d s h);
  written = λ f bytes s. (add-Kept f s, (stat-has f (add f s)).1 (has-add f s));
  opened = λ f s. (add-Kept f s, (stat-has f (add f s)).1 (has-add f s));
  encoded = λ f kind bytes s. (record { dirs = λ d h. h; files = λ g h. h }, tt);
}

abbrev pub first_source : Source (Unit {0})
first_source = record {
  default_config_yaml = codes "server:";
  generate_key = inr tt;
  serial_number = inr 77;
  now = 1700000000;
  in_a_year = λ t. t + 31536000;
  create_certificate = λ template key. inr (1 ∷ []);
  marshal_private_key = λ key. inr (2 ∷ []);
}

-- A source that fails.
abbrev second_source : Source (Unit {0})
second_source = record first_source { generate_key = inl eof }

abbrev after_init : List (List ℕ)
after_init =
    codes "/home/.config/sprut/certs/server.key"
    ∷ codes "/home/.config/sprut/certs/server.crt"
    ∷ codes "/home/.config/sprut/config.yaml"
    ∷ codes "/home/.config/sprut/logs"
    ∷ codes "/home/.config/sprut/certs"
    ∷ codes "/home/.config/sprut"
    ∷ []

init-IsReady_twice_example :
    IsReady names_disk IsThere after_init
    × (init names_disk second_source after_init ≡ ok tt after_init)
init-IsReady_twice_example =
    init-IsReady_twice names_disk IsThere names_disk-IsDisk first_source second_source [] after_init
      (unfold init ensure_default_config ensure_certs generate_self_signed_cert make_dirs names_disk
          add has same_text dir config_path certs_dir logs_dir cert_path key_path in
        refl)
