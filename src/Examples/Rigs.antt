-- ===== src/Examples/Rigs.antt =====
-- The test environment at a concrete input.
use sprut.Testsprut.{
  Calls, TestOption, with_server_id, with_rate_limit, start, default_options, apply_options,
  apply_option, must_atoi, must_atoi_from,
}
use sprut.Testsprut.Resources
use sprut.Testsprut.Resources.{Rig}
use sprut.Testsprut.Clean.{idle, IsRunning, IsGone, start-IsRunning}
use sprut.Io.Ensures.{Ensures}
use sprut.Base.{[], refl, ◌+◌, pos, none, ◌∷◌, ℕ, ◌≡◌, ◌++◌, List, inr, false, codes}

abbrev temp_certs : Resources.Calls (Unit {0})
temp_certs = record {
  mkdir_temp = inr (codes "/tmp/sprut-test-certs-1");
  join = λ a b. a ++ (b'/' ∷ b);
  generate_key = inr tt;
  now = 1700000000;
  in_a_day = λ t. t + 86400;
  create_certificate = λ template key. inr (1 ∷ []);
  marshal_private_key = λ key. inr (2 ∷ []);
  encode_to_memory = λ kind bytes. bytes;
  write_file = λ path bytes. none;
  generic_container = none;
  container_host = inr (codes "localhost");
  mapped_port = inr (codes "32768");
}

abbrev rig_calls : Calls (Unit {0}) (Unit {0}) (List ℕ)
rig_calls = record {
  certs = temp_certs;
  thousand = tt;
  listen = inr (codes "127.0.0.1", codes "40123");
  addr_of = λ host port. host ++ (b':' ∷ port);
  server = record {
    load_key_pair = λ cert_file key_file. inr cert_file;
    default_url = codes "nats://127.0.0.1:4222";
    connect = λ url wait max. none;
  };
  late = false;
}

abbrev named : List (TestOption (Unit {0}))
named = with_server_id (codes "rig-1") ∷ with_rate_limit tt (pos 5) ∷ []

abbrev unused : Rig
unused = record { container = false; certs_dir = false; host = idle }

must_atoi_port : must_atoi (codes "40123") ≡ pos 40123
unfolding must_atoi must_atoi_from
must_atoi_port = refl

start-IsRunning_example :
    Ensures (IsRunning rig_calls) (IsGone rig_calls) (start rig_calls named unused)
unfolding apply_options apply_option default_options
start-IsRunning_example =
    start-IsRunning rig_calls 100 named unused refl
      (record { no_container = refl; no_certs = refl; same_host = refl })
