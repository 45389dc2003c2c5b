-- ===== src/Examples/Handling.antt =====
-- handleConn and the accept loop at concrete inputs.
use sprut.Config
use sprut.Protocol.ClientMessage.{frame}
use sprut.Examples.Router.{
  plain_marshal, always_taken, note, auth_state, auth_env, plain_verify, seven_drawn,
}
use sprut.Examples.Setup.{server_calls, stopped_host, ten_thousand}
use sprut.Router.Handling.Authentic.{IsHandled, handle_conn-IsHandled}
use sprut.Router.Accepting.Sound.{IsSound}
use sprut.Router.Accepting.Served.{serve-IsSound}
use sprut.Base.{replicate, arith, refl, ◌++◌, [], ◌∷◌, none, true, false, List}
use sprut.Router.Auth.Verified.{IsTimely}
use sprut.Router.Handling.{Shared, handle_conn, Surroundings}
use sprut.Router.Accepting.{
  finished, accept_failed, listening, accept_rounds, incoming, Visit, Event,
}
use sprut.Io.Ensures.{Ensures}
use sprut.Router.Serving.{Round}
use sprut.Router.Auth.{AuthState}
use sprut.Io.{net_closed, eof}
use sprut.Router.Setup.Buffers.{IsRefused}
use sprut.Router.Setup.{serve_setup}

-- The client goes on to send a note.
abbrev guest : AuthState
guest = record auth_state {
  conn = record auth_state.conn {
    reader = record auth_state.conn.reader {
      pending = auth_state.conn.reader.pending ++ frame note;
    };
  };
}

abbrev two_rounds : List Round
two_rounds =
    record { closing = false; allowed = true; now = 1700000002 }
    ∷ record { closing = false; allowed = true; now = 1700000003 }
    ∷ []

abbrev around : Surroundings
around = record {
  verify = plain_verify;
  subscribe = λ subject. none;
  unsubscribe = none;
  marshal = plain_marshal;
  nats_publish = always_taken;
  max_size = 65536;
  env = auth_env;
  rounds = two_rounds;
  pool_buf = replicate 100 0;
}

abbrev nobody : Shared
nobody = record { peers = []; closed = []; published = [] }

pub auth_env-IsTimely : IsTimely auth_env
auth_env-IsTimely = record {
  stamp_fits = omega arith;
  check_fits = omega arith;
  ttl_fits = omega arith;
}

handle_conn-IsHandled_example : IsHandled around guest nobody (handle_conn around guest nobody)
handle_conn-IsHandled_example =
    handle_conn-IsHandled around guest nobody refl refl auth_env-IsTimely seven_drawn

abbrev visit : Visit
visit = record {
  env = auth_env;
  subscribe = λ subject. none;
  unsubscribe = none;
  rounds = two_rounds;
  pool_buf = replicate 100 0;
}

abbrev pub happening : List Event
happening =
    incoming guest.conn
    ∷ accept_failed false eof
    ∷ finished 0 visit
    ∷ incoming guest.conn
    ∷ accept_failed true net_closed
    ∷ []

serve-IsSound_example :
    Ensures
      (λ bufs _.
        IsSound plain_verify plain_marshal always_taken 65536 10000 ten_thousand.server.server_id
          happening
          (accept_rounds plain_verify plain_marshal always_taken 65536 happening
            (listening bufs)).1)
      (IsRefused server_calls ten_thousand)
      (serve_setup server_calls ten_thousand stopped_host)
unfolding Config.default_config
serve-IsSound_example =
    serve-IsSound server_calls ten_thousand plain_verify plain_marshal always_taken 65536 10000
      stopped_host happening refl refl
      (refl, (tt, ((auth_env-IsTimely, seven_drawn), (refl, (tt, tt)))))
