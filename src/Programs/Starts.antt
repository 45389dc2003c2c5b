-- ===== src/Programs/Starts.antt =====
-- How main of both examples starts.
use sprut.Client.Connect
use sprut.Identity
use sprut.Identity.Keep.{Kept, IsSound, load_or_generate_again}
use sprut.Programs.{
  Start, Fatal, Flags, start, options, insecure_option, ca_cert_option, connected, with_loaded,
  fatal, running, keys_required, load_keys, connect_failed,
}
use sprut.Base.{
  sym, ap, ◌∙◌, eq_of_same_text, same_text, negsuc, refl, pos, ◌≡◌, ◌++◌, Bool, ℕ, List, [], ◌∷◌,
  none, some, true, false, if◌then◌else◌,
}
use sprut.Identity.{load_or_generate, KeyPair}
use sprut.Client.Options.{
  with_on_error, with_keys, apply_option, apply_options, default_config, ConnectConfig,
}
use sprut.Client.Connect.{connect, Session, Dialled}
use sprut.Io.{ok, err, Error, Outcome}
use sprut.Client.Connect.Outcomes.{
  panicked, closed_again, connect-IsConnected, IsConnected, IsUnconnected,
}
use sprut.Io.Ensures.{Ensures-map, Ensures}

-- The files that the flag asks for.
abbrev pub ca_paths : List ℕ → List (List ℕ)
ca_paths [] = []
ca_paths (c ∷ path) = (c ∷ path) ∷ []

-- No connection is left open.
abbrev pub Shut : Dialled → Type 0
Shut none = Unit
Shut (some c) = c.closed ≡ true

size-ne : (n : ℕ) → ¬ (pos 100 ≡ negsuc n)
size-ne n h = cc

module _ {Full Pool Handler : Type 0} (print_error : Handler) where
  abbrev pub asked_config : KeyPair → Flags → ConnectConfig Full Pool Handler
  asked_config keys flags = record (default_config keys) {
    on_error = some print_error;
    insecure_skip_verify = flags.insecure;
    ca_cert_paths = ca_paths flags.ca_cert;
  }

  options-asked :
      (generated keys : KeyPair) (insecure : Bool) (ca_cert : List ℕ)
      → apply_options {Full = Full} {Pool = Pool}
          (with_keys keys ∷ with_on_error (some print_error) ∷ insecure_option print_error insecure
            ++ ca_cert_option print_error ca_cert)
          (default_config generated)
        ≡ record (default_config keys) {
          on_error = some print_error;
          insecure_skip_verify = insecure;
          ca_cert_paths = ca_paths ca_cert;
        }
  unfolding apply_options apply_option insecure_option ca_cert_option default_config
  options-asked generated keys true [] = refl
  options-asked generated keys true (c ∷ path) = refl
  options-asked generated keys false [] = refl
  options-asked generated keys false (c ∷ path) = refl

  module _ {S : Type 0} (disk : Identity.Calls S) (sound : IsSound disk)
      (calls : Connect.Calls Full Pool) (now : ℕ) where
    -- The programs run with the keys that the file keeps and gives at the next start, and with the
    -- configuration of the flags, on a connection on which the client has authenticated.
    pub record IsStarted (flags : Flags) (keys : KeyPair) (session : Session Full Pool Handler)
        (left : Dialled) (s : S) : Type 0 where
      pub kept : load_or_generate disk flags.keys s ≡ ok keys s
      pub configured : session.cfg ≡ asked_config keys flags
      pub connects : connect calls flags.addr now (options print_error keys flags) ≡ ok session left
      pub connected : IsConnected calls flags.addr now (options print_error keys flags) session left

    -- They end: without a path of keys, where nothing is done; where the keys do not load; or where
    -- Connect fails with this error and this connection, if one was dialled: it is closed.
    data IsEnded (flags : Flags) (s : S) : Fatal → Dialled → S → Type 0 where
      unnamed : flags.keys ≡ [] → IsEnded flags s keys_required none s
      unloaded :
          (e : Error) (s' : S)
          → load_or_generate disk flags.keys s ≡ err e s'
          → IsEnded flags s (load_keys e) none s'
      unconnected :
          (keys : KeyPair) (e : Error) (left : Dialled) (s' : S)
          → load_or_generate disk flags.keys s' ≡ ok keys s'
          → connect calls flags.addr now (options print_error keys flags) ≡ err e left
          → Shut left
          → IsEnded flags s (connect_failed e) left s'

    pub Starting : Flags → S → Start Full Pool Handler × S → Type 0
    Starting flags s (running keys session left, s') = IsStarted flags keys session left s'
    Starting flags s (fatal f left, s') = IsEnded flags s f left s'

    unconnected-Shut :
        (flags : Flags) (keys : KeyPair) (e : Error) (left : Dialled)
        → IsUnconnected calls flags.addr now (options print_error keys flags) e left
        → Shut left
    unfolding options default_config
    unconnected-Shut flags keys e none i = tt
    unconnected-Shut flags keys e (some c) (closed_again d h) = h
    unconnected-Shut flags keys e (some c) (panicked k n d h p) =
        let q = ap (λ cfg. cfg.read_buf_size) (options-asked k keys flags.insecure flags.ca_cert) in
        absurd (size-ne n (sym q ∙ h))

    connected-Starting :
        (flags : Flags) (s s' : S) (keys : KeyPair)
        (o : Outcome Dialled (Session Full Pool Handler))
        → load_or_generate disk flags.keys s' ≡ ok keys s'
        → connect calls flags.addr now (options print_error keys flags) ≡ o
        → Ensures
            (IsConnected calls flags.addr now (options print_error keys flags))
            (IsUnconnected calls flags.addr now (options print_error keys flags))
            o
        → Starting flags s (connected print_error keys o, s')
    unfolding connected Starting options
    connected-Starting flags s s' keys (ok session d) k h i = record {
      kept = k;
      configured = i.is_configured ∙ options-asked i.generated keys flags.insecure flags.ca_cert;
      connects = h;
      connected = i;
    }
    connected-Starting flags s s' keys (err e d) k h i =
        unconnected keys e d s' k h (unconnected-Shut flags keys e d i)

    loaded-Starting :
        (flags : Flags) (s : S) (o : Outcome S KeyPair)
        → load_or_generate disk flags.keys s ≡ o
        → Ensures (λ k s'. load_or_generate disk flags.keys s' ≡ ok k s') (λ _ _. Unit {0}) o
        → Starting flags s (with_loaded print_error disk calls now flags o)
    unfolding with_loaded Starting
    loaded-Starting flags s (err e s') h i = unloaded e s' h
    loaded-Starting flags s (ok keys s') h i =
        connected-Starting flags s s' keys _ i refl
          (connect-IsConnected calls flags.addr now (options print_error keys flags))

    named-Starting :
        (flags : Flags) (s : S) (b : Bool)
        → same_text flags.keys [] ≡ b
        → Starting flags s (
            if b
            then (fatal keys_required none, s)
            else with_loaded print_error disk calls now flags (load_or_generate disk flags.keys s))
    unfolding Starting
    named-Starting flags s true h = unnamed (eq_of_same_text flags.keys [] h)
    named-Starting flags s false h =
        loaded-Starting flags s (load_or_generate disk flags.keys s) refl (
          Ensures-map (Kept disk sound flags.keys s)
            (λ k s'. load_or_generate disk flags.keys s' ≡ ok k s') _ (λ _ _. Unit {0})
            (load_or_generate disk flags.keys s) (λ k s' kept. kept.again) (λ e s' r. tt)
            (load_or_generate_again disk sound flags.keys s))

    -- Where a written file reads back and GenerateKey gives proper pairs: both programs run only
    -- with a path of keys, with the keys that this file keeps and that the next start loads again,
    -- on a connection with the configuration that the flags ask for, authenticated by these keys.
    -- Otherwise they end: without a path, having done nothing; with the error of the keys; or with
    -- that of Connect, the keys being kept and the connection that Connect leaves, if any, closed.
    pub start-Starting :
        (flags : Flags) (s : S) → Starting flags s (start print_error disk calls now flags s)
    unfolding start
    start-Starting flags s = named-Starting flags s _ refl
