-- ===== src/Daemon.antt =====
-- run and setupLogging of cmd/sprut/main.go with Run of pkg/router/router.go and Addr of
-- pkg/config/config.go. The listener, fmt.Sprintf and what the parts call are parameters.
pub mod Serves
pub mod Main
use sprut.Config
use sprut.Config.{Config, LogConfig, ServerConfig, LoadError, load}
use sprut.Router.Setup
use sprut.Router.Setup.{Host, serve_setup}
use sprut.Base.{
  false, [], true, none, if◌then◌else◌, ◌∷◌, ℤ, inr, Bool, ℕ, some, codes, inl, ◌⊎◌, Option,
  same_text, List,
}
use sprut.Io.{err, wrap, ok, Outcome, Error}

-- slog's levels, and the handler that setupLogging installs.
pub data Level : Type 0 where
  level_debug level_info level_warn level_error : Level

pub record LogFile : Type 0 where
  pub filename : List ℕ
  pub max_size : ℕ
  pub max_age : ℕ
  pub max_backups : ℕ
  pub compress : Bool
  pub local_time : Bool

pub record LogSettings : Type 0 where
  pub output : Option LogFile
  pub level : Level
  pub json : Bool

unfoldable pub level_of : List ℕ → Level
level_of text =
    if same_text text (codes "debug")
    then level_debug
    else if same_text text (codes "info")
    then level_info
    else if same_text text (codes "warn")
    then level_warn
    else if same_text text (codes "error")
    then level_error
    else level_info

-- Standard output is `none`.
unfoldable pub log_output : List ℕ → Option LogFile
log_output [] = none
log_output (c ∷ file) = some (record {
  filename = c ∷ file;
  max_size = 100;
  max_age = 7;
  max_backups = 5;
  compress = true;
  local_time = true;
})

unfoldable pub setup_logging : LogConfig → LogSettings
setup_logging cfg = record {
  output = log_output cfg.file;
  level = level_of cfg.level;
  json = same_text cfg.format (codes "json");
}

-- What run changes.
pub record Process : Type 0 where
  pub logging : Option LogSettings
  pub host : Host

-- What run calls: what Load calls and the path of LoadFromAppDir, `fmt.Sprintf("%s:%d", ...)`,
-- net.Listen by its error, and what the server calls.
pub record Calls (Float Certificate : Type 0) : Type 0 where
  pub config : Config.Calls Float
  pub config_path : List ℕ
  pub format_addr : List ℕ → ℤ → List ℕ
  pub listen : List ℕ → Option Error
  pub server : Setup.Calls Certificate

-- The error of run.
pub data RunError : Type 0 where
  not_loaded : LoadError → RunError
  not_served : Error → RunError

module _ {Float Certificate : Type 0} (calls : Calls Float Certificate) where
  -- Addr.
  unfoldable pub addr : ServerConfig → List ℕ
  addr s = calls.format_addr s.host s.port

  -- Serve behind its setup. Its accept loop is Router.Accepting: it ends, and Serve returns nil, once the
  -- context is cancelled; it neither closes nor reopens listener and broker itself, and the deferred
  -- calls close both. Here the context is taken to be cancelled.
  served : Process → Outcome Host (List (List ℕ)) → Option RunError × Process
  served p (ok bufs h) =
      (none, record p { host = record h { listener_open = false; broker_open = false } })
  served p (err e h) = (some (not_served e), record p { host = h })

  -- Run, behind net.Listen.
  listened : Config Float → Process → Option Error → Option RunError × Process
  listened cfg p (some e) = (some (not_served (wrap "listen" e)), p)
  listened cfg p none =
      served p (serve_setup calls.server cfg (record p.host { listener_open = true }))

  configured : LoadError ⊎ Config Float → Process → Option RunError × Process
  configured (inl e) p = (some (not_loaded e), p)
  configured (inr cfg) p =
      listened cfg (record p { logging = some (setup_logging cfg.log) })
        (calls.listen (addr cfg.server))

  unfoldable pub path_or : List ℕ → List ℕ
  path_or [] = calls.config_path
  path_or (c ∷ path) = c ∷ path

  -- run, until the context is cancelled.
  unfoldable pub run : List ℕ → Process → Option RunError × Process
  unfolding configured listened served path_or
  run config_path p = configured (load calls.config (path_or config_path)) p
