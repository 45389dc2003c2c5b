-- ===== src/Examples/Local.antt =====
-- pkg/config, pkg/identity and the loops of pkg/client at concrete inputs.
use sprut.Client.Loops.{OutgoingMessage, Run}
use sprut.Client.Loops.Reading.{frames}
use sprut.Config
use sprut.Config.{validate, load}
use sprut.Config.Valid.{IsValid, validate_iff}
use sprut.Config.Loading.{Source, load_iff}
use sprut.Identity
use sprut.Identity.{load_or_generate}
use sprut.Identity.Keep.{Kept, Refused, load_or_generate_again}
use sprut.Io.Ensures.{Ensures}
use sprut.Base.{
  ◌∷◌, ◌∙◌, inl, take, length, ◌⊎◌, replicate, none, sym, ◌↔◌, ap, [], ℕ, false, inr, codes, Option,
  some, ◌≡◌, List,
}
use sprut.Io.{not_exist, Error, ok, eof}
use sprut.Router.Message.{empty_message, Message}

-- Files that all exist.
abbrev present : List ℕ → Option Error
present path = none

-- A float64 is not looked at.
abbrev local_calls : Config.Calls (Unit {0})
local_calls = record {
  read_file = λ path. inr [];
  unmarshal = λ bytes c. inr c;
  stat = present;
  cert_path = codes "server.crt";
  key_path = codes "server.key";
  log_path = codes "sprut.log";
  hundred = tt {0};
}

validate_iff_example :
    (validate present (Config.default_config (tt {0})) ≡ [])
    ↔ IsValid present (Config.default_config (tt {0}))
validate_iff_example = validate_iff present (Config.default_config (tt {0}))

abbrev local_config : Config.Config (Unit {0})
local_config = Config.resolved local_calls (Config.default_config (tt {0}))

load_iff_example :
    (load local_calls (codes "config.yaml") ≡ inr local_config)
    ↔ Source local_calls (codes "config.yaml") local_config
load_iff_example = load_iff local_calls (codes "config.yaml") local_config

-- A disk with a single file, which every path names.
abbrev found : Option (List ℕ) → Error ⊎ List ℕ
found none = inl not_exist
found (some bytes) = inr bytes

abbrev pub disk_calls : Identity.Calls (Option (List ℕ))
disk_calls = record {
  read_file = λ path s. found s;
  mkdir_all = λ path s. ok tt s;
  write_file = λ path bytes s. ok tt (some bytes);
  dir = λ path. path;
  generate_key = inr (replicate 32 5, replicate 64 5);
  public_of = take 32;
}

pub disk_calls-IsSound : Identity.Keep.IsSound disk_calls
disk_calls-IsSound = record {
  reads_back = λ path bytes s s' h. let same : some bytes ≡ s' = cc in ap found (sym same);
  generated = λ public private h.
      let one : replicate 32 5 ≡ public = cc in
      let two : replicate 64 5 ≡ private = cc in
      (ap length (sym two), ap (take 32) (sym two) ∙ one);
}

load_or_generate_again_example :
    Ensures
      (Kept disk_calls disk_calls-IsSound (codes "id.key") none)
      (Refused disk_calls disk_calls-IsSound (codes "id.key") none)
      (load_or_generate disk_calls (codes "id.key") none)
load_or_generate_again_example =
    load_or_generate_again disk_calls disk_calls-IsSound (codes "id.key") none

abbrev pub plain_unmarshal : List ℕ → Error ⊎ Message
plain_unmarshal bytes = inr (record empty_message { payload = bytes })

abbrev two_messages : List (List ℕ × Message)
two_messages =
    (codes "one", record empty_message { payload = codes "one" })
    ∷ (codes "two", record empty_message { payload = codes "two" })
    ∷ []

abbrev pub fresh_run : Run
fresh_run = record {
  conn = record {
    reader = record { pending = frames two_messages; fin = eof };
    writer = record { output = []; room = 0 };
    deadline = none;
    closed = false;
    tls = none;
  };
  close_ch = false;
  errors = [];
  recv = [];
  send = [];
  send_closed = false;
}

abbrev pub two_outgoing : List OutgoingMessage
two_outgoing =
    record { to = replicate 64 b'b'; msg_id = codes "m1"; payload = codes "one" }
    ∷ record { to = replicate 64 b'b'; msg_id = codes "m2"; payload = codes "two" }
    ∷ []
