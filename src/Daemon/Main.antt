-- ===== src/Daemon/Main.antt =====
-- main of cmd/sprut/main.go. The exit status is that of an error, where there is one.
use sprut.Appdir
use sprut.Daemon
use sprut.Daemon.Serves.{Ending, run-Ending}
use sprut.Appdir.{Disk, Source, init, dir, config_path, certs_dir, logs_dir}
use sprut.Base.{
  refl, ◌≡◌, ◌++◌, codes, Bool, ℕ, List, Option, [], ◌∷◌, none, some, true, false, if◌then◌else◌,
}
use sprut.Daemon.{run, RunError, Process}
use sprut.Io.{ok, err, Outcome, Error}

pub data MainError : Type 0 where
  not_initialized : Error → MainError
  fatal_error : RunError → MainError

-- What the process changes: the disk, what run changes, and what was printed.
pub record Machine (S : Type 0) : Type 0 where
  pub files : S
  pub process : Process
  pub printed : List (List ℕ)

-- The calls of run read the files that Init leaves.
module _ {S Key Float Certificate : Type 0} (disk : Disk S) (source : Source Key)
    (calls : S → Daemon.Calls Float Certificate) where
  paths : List (List ℕ)
  paths =
      (codes "Initialized: " ++ dir disk ++ codes "\n")
      ∷ (codes "Config: " ++ Appdir.config_path disk ++ codes "\n")
      ∷ (codes "Certs: " ++ certs_dir disk ++ codes "\n")
      ∷ (codes "Logs: " ++ logs_dir disk ++ codes "\n")
      ∷ []

  pub as_main : Option RunError → Option MainError
  as_main none = none
  as_main (some e) = some (fatal_error e)

  ran : Machine S → Option RunError × Process → Option MainError × Machine S
  ran m (e, p) = (as_main e, record m { process = p })

  initialized : List ℕ → Bool → Machine S → Outcome S (Unit {0}) → Option MainError × Machine S
  initialized path init_only m (err e s) = (some (not_initialized e), record m { files = s })
  initialized path init_only m (ok a s) =
      if init_only
      then (none, record m { files = s; printed = m.printed ++ paths })
      else ran (record m { files = s }) (run (calls s) path m.process)

  -- main, by the flags -config and -init, until the context is cancelled.
  unfoldable pub main : List ℕ → Bool → Machine S → Option MainError × Machine S
  unfolding initialized ran as_main paths
  main path init_only m = initialized path init_only m (init disk source m.files)

  -- How main ends.
  pub data Finished (path : List ℕ) (init_only : Bool) (m : Machine S)
      : Option MainError × Machine S → Type 0 where
    uninitialized :
        {n : Machine S} (e : Error)
        → init disk source m.files ≡ err e n.files
        → n.process ≡ m.process
        → n.printed ≡ m.printed
        → Finished path init_only m (some (not_initialized e), n)
    only_initialized :
        {n : Machine S}
        → init_only ≡ true
        → init disk source m.files ≡ ok tt n.files
        → n.process ≡ m.process
        → Finished path init_only m (none, n)
    ended :
        {n : Machine S} (e : Option RunError)
        → init_only ≡ false
        → init disk source m.files ≡ ok tt n.files
        → Ending (calls n.files) path m.process (e, n.process)
        → n.printed ≡ m.printed
        → Finished path init_only m (as_main e, n)

  by_flag :
      (path : List ℕ) (init_only : Bool) (m : Machine S) (s : S)
      → init disk source m.files ≡ ok tt s
      → m.process.host.broker_open ≡ false
      → Finished path init_only m (initialized path init_only m (ok tt s))
  unfolding initialized ran
  by_flag path true m s h shut = only_initialized refl h refl
  by_flag path false m s h shut =
      ended (run (calls s) path m.process).0 refl h (run-Ending (calls s) path m.process shut) refl

  by_init :
      (path : List ℕ) (init_only : Bool) (m : Machine S) (o : Outcome S (Unit {0}))
      → init disk source m.files ≡ o
      → m.process.host.broker_open ≡ false
      → Finished path init_only m (initialized path init_only m o)
  unfolding initialized
  by_init path init_only m (err e s) h shut = uninitialized e h refl refl
  by_init path init_only m (ok a s) h shut = by_flag path init_only m s h shut

  -- Whatever the disk does: main first sees to the application's directory. Where that fails nothing
  -- is served or printed, and the error is main's. With -init that is all, and it exits well.
  -- Otherwise run reads the files that are there now and its end is main's, with run's error if it
  -- has one: a valid configuration was served, with its certificates loaded and NATS connected at its
  -- addresses, and listener and broker are closed again; or the
  -- configuration did not load, nobody could listen, or Serve refused it.
  pub main-Finished :
      (path : List ℕ) (init_only : Bool) (m : Machine S)
      → m.process.host.broker_open ≡ false
      → Finished path init_only m (main path init_only m)
  unfolding main
  main-Finished path init_only m shut = by_init path init_only m _ refl shut
