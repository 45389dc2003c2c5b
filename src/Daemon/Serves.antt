-- ===== src/Daemon/Serves.antt =====
-- What run has done when it returns.
use sprut.Daemon.{
  Calls, Process, RunError, run, configured, listened, served, path_or, addr, setup_logging,
  not_loaded, not_served,
}
use sprut.Config.{Config, LoadError, load}
use sprut.Config.Loading.{Source, load_iff}
use sprut.Router.Setup.{Host, serve_setup}
use sprut.Router.Setup.Buffers.{IsServing, IsRefused, serve_setup-IsServing}
use sprut.Router.Setup.Backed.{IsBacked, serve_setup-IsBacked}
use sprut.Router.Setup.Closing.{IsClosed, serve_setup-IsClosed}
use sprut.Io.Ensures.{Ensures}
use sprut.Base.{refl, suc, inr, ◌⊎◌, true, inl, none, some, false, ◌≡◌, Option, ℕ, List}
use sprut.Io.{wrap, Error, err, ok, Outcome}

module _ {Float Certificate : Type 0} (calls : Calls Float Certificate) (path : List ℕ) where
  -- The file that run loads: the one named, or the one of the application's directory.
  abbrev loaded_path : List ℕ
  loaded_path = path_or calls path

  -- How run ends.
  pub data Ending (p : Process) : Option RunError × Process → Type 0 where
    -- The context was cancelled while the server ran.
    returned :
        {q : Process} (c : Config Float) (n : ℕ) (bufs : List (List ℕ)) (h : Host)
        → Source calls.config loaded_path c
        → calls.listen (addr calls c.server) ≡ none
        → serve_setup calls.server c (record p.host { listener_open = true }) ≡ ok bufs h
        → IsServing (suc n) c.server.server_id bufs h
        → IsBacked calls.server c
        → q.logging ≡ some (setup_logging c.log)
        → q.host ≡ record h { listener_open = false; broker_open = false }
        → Ending p (none, q)
    unloaded :
        (e : LoadError) → load calls.config loaded_path ≡ inl e → Ending p (some (not_loaded e), p)
    unheard :
        {q : Process} (c : Config Float) (e x : Error)
        → Source calls.config loaded_path c
        → calls.listen (addr calls c.server) ≡ some x
        → q.host ≡ p.host
        → Ending p (some (not_served e), q)
    refused :
        {q : Process} (c : Config Float) (e : Error)
        → Source calls.config loaded_path c
        → calls.listen (addr calls c.server) ≡ none
        → serve_setup calls.server c (record p.host { listener_open = true }) ≡ err e q.host
        → IsRefused calls.server c e q.host
        → IsClosed calls.server c q.host
        → Ending p (some (not_served e), q)

  -- Whatever the files hold: run ends well only after it has served a valid configuration, from the
  -- file named or the application's own, with its certificates loaded, at least one buffer and a
  -- connection to NATS, and then
  -- the listener and the broker are closed. Otherwise the configuration did not load and nothing has
  -- changed; or nobody could listen at its address; or Serve refused it for one of its reasons, with the
  -- broker closed, and the listener too unless it was the certificates that did not load.
  pub run-Ending : (p : Process) → p.host.broker_open ≡ false → Ending p (run calls path p)
  unfolding run configured listened served
  run-Ending p shut = by_load (load calls.config loaded_path) refl
    where
      by_serve :
          (c : Config Float) (n : ℕ) (q : Process)
          → Source calls.config loaded_path c
          → q.logging ≡ some (setup_logging c.log)
          → calls.listen (addr calls c.server) ≡ none
          → (o : Outcome Host (List (List ℕ)))
          → serve_setup calls.server c (record p.host { listener_open = true }) ≡ o
          → Ensures (IsServing (suc n) c.server.server_id) (IsRefused calls.server c) o
          → Ensures (λ _ _. Unit {0}) (λ _ h. IsClosed calls.server c h) o
          → Ensures (λ _ _. IsBacked calls.server c) (λ _ _. Unit {0}) o
          → Ending p (served calls q o)
      by_serve c n q s log l (ok bufs h) r v w b = returned c n bufs h s l r v b log refl
      by_serve c n q s log l (err e h) r v w b = refused c e s l r v w

      by_listen :
          (c : Config Float)
          → Source calls.config loaded_path c
          → (o : Option Error) → calls.listen (addr calls c.server) ≡ o
          → Ending p (listened calls c (record p { logging = some (setup_logging c.log) }) o)
      by_listen c s (some x) l = unheard c (wrap "listen" x) x s l refl
      by_listen c s none l =
          let (n, same) = s.is_valid.max_connections in
          by_serve c n (record p { logging = some (setup_logging c.log) }) s refl l
            (serve_setup calls.server c (record p.host { listener_open = true })) refl
            (serve_setup-IsServing calls.server c (suc n) (record p.host { listener_open = true })
              same shut)
            (serve_setup-IsClosed calls.server c (record p.host { listener_open = true }))
            (serve_setup-IsBacked calls.server c (record p.host { listener_open = true }))

      by_load :
          (o : LoadError ⊎ Config Float)
          → load calls.config loaded_path ≡ o
          → Ending p (configured calls o p)
      by_load (inl e) h = unloaded e h
      by_load (inr c) h =
          by_listen c ((load_iff calls.config loaded_path c).0 h)
            (calls.listen (addr calls c.server)) refl
