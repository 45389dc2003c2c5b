-- ===== src/Testsprut/Clean.antt =====
-- What a test environment leaves in use.
use sprut.Testsprut.{
  Options, Calls, TestOption, Environment, start, with_nats, with_certs, listening, await_server,
  give_up, host_of, server_config, apply_options, default_options,
}
use sprut.Testsprut.Resources.{Certs, Rig, generate_certs, start_nats}
use sprut.Router.Setup.{Host, serve_setup}
use sprut.Router.Setup.Closing.{IsClosed, serve_setup-IsClosed}
use sprut.Config.{Config}
use sprut.Router.Setup.Buffers.{serve_setup-IsServing, IsServing, IsRefused}
use sprut.Testsprut.Resources.Released.{IsFree, IsLeft, IsUp, start_nats-IsUp, generate_certs-IsUp}
use sprut.Io.Ensures.{Ensures}
use sprut.Base.{some, ap, refl, pos, ℕ, List, inr, inl, ◌⊎◌, true, Bool, ◌≡◌, false}
use sprut.Io.{err, ok, Outcome, Error}

-- Nothing runs yet.
abbrev pub idle : Host
idle = record { listener_open = false; broker_open = false; ready = false }

module _ {Float Key Certificate : Type 0} (calls : Calls Float Key Certificate) where
  -- The environment is there.
  pub record IsRunning (env : Environment) (rig : Rig) : Type 0 where
    pub up : rig.container ≡ true
    pub certs : rig.certs_dir ≡ true
    pub broker : rig.host.broker_open ≡ true

  -- The server is down, but the listener may be left where the certificates did not load.
  pub record IsDown (h : Host) : Type 0 where
    pub no_broker : h.broker_open ≡ false
    pub listener :
        (h.listener_open ≡ false)
        ⊎ ((cert_file key_file : List ℕ) × (x : Error) × (calls.server.load_key_pair cert_file
                key_file
              ≡ inl x))

  -- The container and the certificates were asked to go, but for a container that came with an error of
  -- GenericContainer; and the server is down, unless it was late.
  pub record IsGone (e : Error) (rig : Rig) : Type 0 where
    pub container :
        (rig.container ≡ false) ⊎ ((x : Error) × (calls.certs.generic_container ≡ some (x, true)))
    pub no_certs : rig.certs_dir ≡ false
    pub server : (calls.late ≡ true) ⊎ IsDown rig.host

  module _ (n : ℕ) (o : Options Float) (many : o.max_connections ≡ pos n) where
    gone :
        (e : Error) (h : Host) (cfg : Config Float) (rig : Rig)
        → h.broker_open ≡ false
        → IsClosed calls.server cfg h
        → IsGone e (record rig { container = false; certs_dir = false; host = h })
    gone e h cfg rig b (inl closed) = record {
      container = inl refl;
      no_certs = refl;
      server = inr (record { no_broker = b; listener = inl closed });
    }
    gone e h cfg rig b (inr (x, k)) = record {
      container = inl refl;
      no_certs = refl;
      server =
          inr
            (record { no_broker = b; listener = inr (cfg.tls.cert_file, cfg.tls.key_file, x, k) });
    }

    idle-IsDown : (h : Host) → h ≡ idle → IsDown h
    idle-IsDown h e = record {
      no_broker = ap (λ k. k.broker_open) e;
      listener = inl (ap (λ k. k.listener_open) e);
    }

    by_server :
        (late : Bool) (env : Environment) (rig : Rig) (cfg : Config Float)
        → calls.late ≡ late
        → rig.container ≡ true
        → rig.certs_dir ≡ true
        → (r : Outcome Host (List (List ℕ)))
        → Ensures (IsServing n cfg.server.server_id) (IsRefused calls.server cfg) r
        → Ensures (λ _ _. Unit {0}) (λ _ h. IsClosed calls.server cfg h) r
        → Ensures IsRunning IsGone (await_server late env r rig)
    unfolding await_server give_up host_of
    by_server true env rig cfg t u c (ok bufs h) s l = record {
      container = inl refl;
      no_certs = refl;
      server = inl t;
    }
    by_server true env rig cfg t u c (err e h) s l = gone _ h cfg rig s.broker_closed l
    by_server false env rig cfg t u c (ok bufs h) s l = record {
      up = u;
      certs = c;
      broker = s.broker_open;
    }
    by_server false env rig cfg t u c (err e h) s l = gone _ h cfg rig s.broker_closed l

    by_listen :
        (url : List ℕ) (certs : Certs) (r : Error ⊎ (List ℕ × List ℕ)) (rig : Rig)
        → IsUp true idle rig
        → Ensures IsRunning IsGone (listening calls o url certs r rig)
    unfolding listening server_config
    by_listen url certs (inl e) rig u = record {
      container = inl refl;
      no_certs = refl;
      server = inr (idle-IsDown rig.host u.same_host);
    }
    by_listen url certs (inr (host, port)) rig u =
        let cfg = server_config o certs host port url in
        let h = record rig.host { listener_open = true } in
        by_server calls.late _ rig cfg refl u.up u.certs (serve_setup calls.server cfg h)
          (serve_setup-IsServing calls.server cfg n h many (ap (λ k. k.broker_open) u.same_host))
          (serve_setup-IsClosed calls.server cfg h)

    by_certs :
        (url : List ℕ) (r : Outcome Rig Certs)
        → Ensures (λ _ s. IsUp true idle s) (λ _ s. IsUp false idle s) r
        → Ensures IsRunning IsGone (with_certs calls o url r)
    unfolding with_certs
    by_certs url (ok certs rig) u = by_listen url certs calls.listen rig u
    by_certs url (err e rig) u = record {
      container = inl refl;
      no_certs = u.certs;
      server = inr (idle-IsDown rig.host u.same_host);
    }

    by_nats :
        (r : Outcome Rig (List ℕ))
        → Ensures (λ _ s. IsUp false idle s) (λ _ s. IsLeft calls.certs idle s) r
        → Ensures IsRunning IsGone (with_nats calls o r)
    unfolding with_nats
    by_nats (ok url rig) u =
        by_certs url (generate_certs calls.certs rig) (generate_certs-IsUp calls.certs idle rig u)
    by_nats (err e rig) f = record {
      container = f.container;
      no_certs = f.no_certs;
      server = inr (idle-IsDown rig.host f.same_host);
    }

  -- Start, with nothing in use before and a limit of connections that is not negative: it gives an
  -- environment with its container, its certificates and a broker connection; or it fails. Then the
  -- certificates, and the container unless it came with an error of GenericContainer, were told to
  -- go; and unless the server was late, when Start does not wait for its end, no broker connection is
  -- left, and no open listener but where a certificate did not load.
  pub start-IsRunning :
      (n : ℕ) (opts : List (TestOption Float)) (rig : Rig)
      → (apply_options opts (default_options calls.thousand)).max_connections ≡ pos n
      → IsFree idle rig
      → Ensures IsRunning IsGone (start calls opts rig)
  unfolding start
  start-IsRunning n opts rig many free =
      by_nats n (apply_options opts (default_options calls.thousand)) many
        (start_nats calls.certs rig) (start_nats-IsUp calls.certs idle rig free)
