-- ===== src/Examples/Connecting.antt =====
-- Connect and its options at concrete inputs.
use sprut.Bytes.Slices.{copy_at}
use sprut.Client.Connect.Live.{IsAnswered, connect_lem}
use sprut.Client.Auth.Honest.{client_says, server_says}
use sprut.Protocol.ChannelBinding.{get_channel_binding}
use sprut.Protocol.ServerChallenge.{ServerChallenge}
use sprut.Io.Reads.{reader}
use sprut.Client.Options.{apply_option, load_ca_certs, ConnectConfig}
use sprut.Testsprut.{Environment}
use sprut.Testsprut.TestClient.{IsReady, IsShut, new_client, new_client-IsReady}
use sprut.Client.Options
use sprut.Client.Options.{
  ConnectOption, apply_options, build_tls_config, with_ca_cert_file, with_insecure_skip_verify,
  with_read_buf_size, with_server_name,
}
use sprut.Client.Options.Secure.{Choice, build_tls_config-Choice}
use sprut.Client.Connect.{Calls, connect}
use sprut.Client.Connect.Outcomes.{IsConnected, IsUnconnected, connect-IsConnected}
use sprut.Protocol.ChannelBinding.{ConnectionState}
use sprut.Identity.{KeyPair}
use sprut.Io.Conn.{Conn}
use sprut.Io.Ensures.{Ensures}
use sprut.Base.{
  refl, ◌≡◌, arith, ◌++◌, pos, false, some, none, ◌∷◌, inr, ℕ, codes, [], true, replicate, List,
}
use sprut.Io.{push, ok, eof}

abbrev pub some_keys : KeyPair
some_keys = record { public_key = replicate 32 5; private_key = replicate 64 5 }

abbrev bound_tls : ConnectionState
bound_tls = record {
  handshake_complete = true;
  export_keying_material = λ label n. inr (replicate n 6);
}

abbrev silent_conn : Conn
silent_conn = record {
  reader = record { pending = []; fin = eof };
  writer = record { output = []; room = 1000 };
  deadline = none;
  closed = false;
  tls = some bound_tls;
}

-- A pool is the bytes that it has taken.
abbrev pem_files : Options.Calls (List ℕ)
pem_files = record {
  read_file = λ path. inr path;
  new_cert_pool = [];
  append_certs = λ pool pem. some (pool ++ pem);
}

abbrev pub client_calls : Calls (Unit {0}) (List ℕ)
client_calls = record {
  generate = inr some_keys;
  files = pem_files;
  dial = λ timeout local addr tls. inr (silent_conn, bound_tls);
  sign = λ private_key text. private_key;
}

abbrev asked : List (ConnectOption (Unit {0}) (List ℕ) (Unit {0}))
asked =
    with_ca_cert_file (codes "ca1.pem")
    ∷ with_server_name (codes "localhost")
    ∷ with_ca_cert_file (codes "ca2.pem")
    ∷ with_read_buf_size (pos 7)
    ∷ with_insecure_skip_verify
    ∷ []

build_tls_config-Choice_example :
    Choice pem_files asked
      (build_tls_config pem_files (apply_options asked (Options.default_config some_keys)))
build_tls_config-Choice_example = build_tls_config-Choice pem_files some_keys asked

connect-IsConnected_example :
    Ensures
      (IsConnected client_calls (codes "localhost:8443") 1700000000 asked)
      (IsUnconnected client_calls (codes "localhost:8443") 1700000000 asked)
      (connect client_calls (codes "localhost:8443") 1700000000 asked)
connect-IsConnected_example =
    connect-IsConnected client_calls (codes "localhost:8443") 1700000000 asked

abbrev their_keys : KeyPair
their_keys = record { public_key = replicate 32 9; private_key = replicate 64 9 }

abbrev rig : Environment
rig = record { nats_url = []; sprut_addr = codes "127.0.0.1:40123"; ca_cert = [] }

new_client-IsReady_example :
    Ensures
      (IsReady (Unit {0}) client_calls 1700000000 rig their_keys)
      (λ _ l. IsShut l)
      (new_client (Unit {0}) client_calls 1700000000 rig their_keys)
new_client-IsReady_example = new_client-IsReady (Unit {0}) client_calls 1700000000 rig their_keys

abbrev a_challenge : ServerChallenge
a_challenge = record {
  challenge = replicate 32 7;
  timestamp = 1700000000;
  server_id = replicate 32 0;
}

abbrev answering_conn : Conn
answering_conn = record silent_conn {
  reader = record {
    pending = server_says client_calls.sign some_keys bound_tls a_challenge (replicate 32 6);
    fin = eof;
  };
}

abbrev answering_calls : Calls (Unit {0}) (List ℕ)
answering_calls = record client_calls {
  dial = λ timeout local address tls. inr (answering_conn, bound_tls);
}

abbrev asked_config : ConnectConfig (Unit {0}) (List ℕ) (Unit {0})
asked_config = apply_options asked (Options.default_config some_keys)

asked-IsAnswered :
    IsAnswered answering_calls
      (codes "localhost:8443")
      1700000000
      asked
      asked_config
      7
      a_challenge
      (replicate 32 6)
      answering_conn
      bound_tls
unfolding apply_options apply_option Options.default_config build_tls_config get_channel_binding
    load_ca_certs copy_at
asked-IsAnswered = record {
  keys = some_keys;
  tls = _;
  generated = refl;
  is_configured = refl;
  built = refl;
  reached = refl;
  is_open = refl;
  bound = refl;
  sized_challenge = record {
    challenge_len = refl;
    timestamp_fits = omega arith;
    server_id_len = refl;
  };
  sized = record {
    challenge_len = refl;
    timestamp_fits = omega arith;
    server_id_len = refl;
    client_pub_key_len = refl;
    channel_binding_len = refl;
  };
  arriving = refl;
  room = omega arith;
  buffered = refl;
}

connect_lem_example :
    connect answering_calls (codes "localhost:8443") 1700000000 asked
    ≡ ok
        (record { cfg = asked_config; capacity = 7 })
        (some (record answering_conn {
          reader = reader [] eof;
          writer =
              push
                (client_says answering_calls.sign asked_config.keys bound_tls a_challenge
                  (replicate 32 6))
                silent_conn.writer;
          deadline = none;
        }))
connect_lem_example =
    connect_lem answering_calls (codes "localhost:8443") 1700000000 asked asked_config 7 a_challenge
      (replicate 32 6) answering_conn bound_tls asked-IsAnswered
