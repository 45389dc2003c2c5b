-- ===== src/Testsprut.antt =====
-- pkg/testsprut/environment.go. The listener, the server's calls and the times of waiting are
-- parameters.
pub mod Resources
pub mod Clean
pub mod TestClient
use sprut.Config.{Config}
use sprut.Router.Setup
use sprut.Router.Setup.{Host, serve_setup}
use sprut.Testsprut.Resources
use sprut.Testsprut.Resources.{Certs, Rig, generate_certs, start_nats}
use sprut.Base.{
  none, ◌%◌, ◌-◌, negsuc, ◌^◌, inr, ◌+◌, inl, ltb, ◌*◌, true, false, codes, [], if◌then◌else◌, ◌∷◌,
  some, ◌⊎◌, Bool, Option, ℕ, List, ℤ, pos,
}
use sprut.Io.{wrap, message, Proc, ok, err, Error, Outcome}

-- options and defaultOptions.
pub record Options (Float : Type 0) : Type 0 where
  pub max_connections : ℤ
  pub max_message_size : ℤ
  pub rate_limit_per_sec : Float
  pub rate_limit_burst : ℤ
  pub auth_timeout : ℤ
  pub challenge_ttl : ℤ
  pub server_id : List ℕ

unfoldable pub default_options : {Float : Type 0} → Float → Options Float
default_options thousand = record {
  max_connections = pos 100;
  max_message_size = pos 65536;
  rate_limit_per_sec = thousand;
  rate_limit_burst = pos 100;
  auth_timeout = pos 10000000000;
  challenge_ttl = pos 60000000000;
  server_id = codes "test-sprut";
}

pub data TestOption (Float : Type 0) : Type 0 where
  with_max_connections : ℤ → TestOption Float
  with_max_message_size : ℤ → TestOption Float
  with_rate_limit : Float → ℤ → TestOption Float
  with_auth_timeout : ℤ → TestOption Float
  with_challenge_ttl : ℤ → TestOption Float
  with_server_id : List ℕ → TestOption Float

-- mustAtoi, on the 64 bits of an int.
unfoldable pub must_atoi_from : ℕ → List ℕ → ℕ
must_atoi_from n [] = n
must_atoi_from n (c ∷ s) = must_atoi_from ((n * 10 + (c + 2 ^ 64 - b'0') % 2 ^ 64) % 2 ^ 64) s

unfoldable pub must_atoi : List ℕ → ℤ
unfolding must_atoi_from
must_atoi s =
    let n = must_atoi_from 0 s in if ltb n (2 ^ 63) then pos n else negsuc (2 ^ 64 - 1 - n)

-- Environment.
pub record Environment : Type 0 where
  pub nats_url : List ℕ
  pub sprut_addr : List ℕ
  pub ca_cert : List ℕ

-- net.Listen on a free port, by host and port, and the text of the address; what the server calls;
-- whether 30 seconds pass before the server says anything.
pub record Calls (Float Key Certificate : Type 0) : Type 0 where
  pub certs : Resources.Calls Key
  pub thousand : Float
  pub listen : Error ⊎ (List ℕ × List ℕ)
  pub addr_of : List ℕ → List ℕ → List ℕ
  pub server : Setup.Calls Certificate
  pub late : Bool

module _ {Float : Type 0} where
  unfoldable pub apply_option : TestOption Float → Options Float → Options Float
  apply_option (with_max_connections n) o = record o { max_connections = n }
  apply_option (with_max_message_size n) o = record o { max_message_size = n }
  apply_option (with_rate_limit per_sec burst) o = record o {
    rate_limit_per_sec = per_sec;
    rate_limit_burst = burst;
  }
  apply_option (with_auth_timeout d) o = record o { auth_timeout = d }
  apply_option (with_challenge_ttl d) o = record o { challenge_ttl = d }
  apply_option (with_server_id id) o = record o { server_id = id }

  unfoldable pub apply_options : List (TestOption Float) → Options Float → Options Float
  apply_options [] o = o
  apply_options (opt ∷ opts) o = apply_options opts (apply_option opt o)

  -- Step 4.
  unfoldable pub server_config : Options Float → Certs → List ℕ → List ℕ → List ℕ → Config Float
  server_config o certs host port url = record {
    server = record { host = host; port = must_atoi port; server_id = o.server_id };
    tls = record { cert_file = certs.cert_file; key_file = certs.key_file; min_version = [] };
    nats = record { urls = url ∷ []; reconnect_wait = pos 1000000000; max_reconnects = pos 5 };
    limits = record {
      max_connections = o.max_connections;
      max_message_size = o.max_message_size;
      rate_limit_per_sec = o.rate_limit_per_sec;
      rate_limit_burst = o.rate_limit_burst;
      auth_timeout = o.auth_timeout;
      challenge_ttl = o.challenge_ttl;
    };
    log = record { level = []; format = []; file = [] };
    ready = true;
  }

-- The server as it stands. Start cancels its context and does not wait for it.
host_of : Outcome Host (List (List ℕ)) → Host
host_of (ok bufs h) = h
host_of (err e h) = h

-- `cancelCtx(); certs.Cleanup(); nats.Terminate(ctx)`.
give_up : Error → Host → Rig → Outcome Rig Environment
give_up e h rig = err e (record rig { container = false; certs_dir = false; host = h })

-- Step 6. The caller's context is not cancelled meanwhile: Serve then sends no nil before it is ready.
unfoldable pub await_server :
    Bool → Environment → Outcome Host (List (List ℕ)) → Proc Rig Environment
unfolding give_up host_of
await_server true env o rig = give_up (message "server start timeout" []) (host_of o) rig
await_server false env (ok bufs h) rig = ok env (record rig { host = h })
await_server false env (err e h) rig = give_up (wrap "server failed to start" e) h rig

module _ {Float Key Certificate : Type 0} (calls : Calls Float Key Certificate) where
  listening : Options Float → List ℕ → Certs → Error ⊎ (List ℕ × List ℕ) → Proc Rig Environment
  listening o url certs (inl e) rig =
      err (wrap "create listener" e) (record rig { certs_dir = false; container = false })
  listening o url certs (inr (host, port)) rig =
      await_server calls.late
        (record { nats_url = url; sprut_addr = calls.addr_of host port; ca_cert = certs.ca_cert })
        (serve_setup calls.server (server_config o certs host port url)
          (record rig.host { listener_open = true }))
        rig

  with_certs : Options Float → List ℕ → Outcome Rig Certs → Outcome Rig Environment
  with_certs o url (ok certs rig) = listening o url certs calls.listen rig
  with_certs o url (err e rig) = err (wrap "generate certs" e) (record rig { container = false })

  with_nats : Options Float → Outcome Rig (List ℕ) → Outcome Rig Environment
  with_nats o (ok url rig) = with_certs o url (generate_certs calls.certs rig)
  with_nats o (err e rig) = err (wrap "start NATS" e) rig

  -- Start.
  unfoldable pub start : List (TestOption Float) → Proc Rig Environment
  unfolding with_nats with_certs listening
  start opts rig =
      with_nats (apply_options opts (default_options calls.thousand)) (start_nats calls.certs rig)

-- Environment.Close: the server is cancelled, then certificates and container are removed.
first_error : Option Error → Option Error → Option Error
first_error (some e) _ = some (wrap "cleanup certs" e)
first_error none (some e) = some (wrap "terminate NATS" e)
first_error none none = none

unfoldable pub close_environment : Option Error → Option Error → Rig → Option Error × Rig
unfolding first_error
close_environment cleanup terminate rig = (
  first_error cleanup terminate,
  record {
    container = false;
    certs_dir = false;
    host = record rig.host { listener_open = false; broker_open = false };
  },
)
