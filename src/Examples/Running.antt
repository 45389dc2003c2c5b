-- ===== src/Examples/Running.antt =====
-- The daemon at a concrete input.
use sprut.Daemon.{Calls, Process, level_of, level_warn, level_info}
use sprut.Examples.Setup.{names_disk, first_source}
use sprut.Daemon.Main.{Machine, Finished, main, main-Finished}
use sprut.Config
use sprut.Base.{◌≡◌, refl, codes, false, ℕ, same_text, [], none, inr, List}

abbrev daemon_config : Config.Calls (Unit {0})
daemon_config = record {
  read_file = λ path. inr [];
  unmarshal = λ bytes c. inr c;
  stat = λ path. none;
  cert_path = codes "server.crt";
  key_path = codes "server.key";
  log_path = codes "sprut.log";
  hundred = tt;
}

abbrev daemon_calls : Calls (Unit {0}) (List ℕ)
daemon_calls = record {
  config = daemon_config;
  config_path = codes "config.yaml";
  format_addr = λ host port. host;
  listen = λ address. none;
  server = record {
    load_key_pair = λ cert_file key_file. inr cert_file;
    default_url = codes "nats://127.0.0.1:4222";
    connect = λ url wait max. none;
  };
}

abbrev started_process : Process
started_process = record {
  logging = none;
  host = record { listener_open = false; broker_open = false; ready = false };
}

level_of_warn : level_of (codes "warn") ≡ level_warn
unfolding level_of same_text
level_of_warn = refl

level_of_other : level_of (codes "WARN") ≡ level_info
unfolding level_of same_text
level_of_other = refl

abbrev first_machine : Machine (List (List ℕ))
first_machine = record { files = []; process = started_process; printed = [] }

main-Finished_example :
    Finished names_disk first_source
      (λ files. daemon_calls)
      []
      false
      first_machine
      (main names_disk first_source (λ files. daemon_calls) [] false first_machine)
main-Finished_example =
    main-Finished names_disk first_source (λ files. daemon_calls) [] false first_machine refl
