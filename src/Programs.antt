-- ===== src/Programs.antt =====
-- What examples/echo-bot/main.go and examples/simple-client/main.go share: both begin with the same
-- code, and both number their messages with an atomic int64.
pub mod Numbers
pub mod Starts
pub mod EchoBot
pub mod SimpleClient
use sprut.Client.Connect
use sprut.Identity
use sprut.Base.{
  ◌-◌, ◌^◌, ◌%◌, ◌++◌, same_text, ◌/◌, ◌+◌, ltb, List, Bool, ℕ, [], ◌∷◌, none, some, true, false,
  inl, inr, zero, suc, if◌then◌else◌,
}
use sprut.Io.{ok, err, Outcome, Error}
use sprut.Identity.{load_or_generate, KeyPair}
use sprut.Client.Options.{
  with_on_error, with_keys, with_ca_cert_file, with_insecure_skip_verify, ConnectOption,
}
use sprut.Client.Connect.{connect, Session, Dialled}

-- msgCounter, an int64 in two's complement: `msgCounter.Add(1)`, and what `%d` prints of it.
unfoldable pub add_one : ℕ → ℕ
add_one count = (count + 1) % 2 ^ 64

digits : ℕ → ℕ → List ℕ
digits zero n = []
digits (suc fuel) n =
    let rest = digits fuel (n / 10) in
    if ltb n 10 then (b'0' + n) ∷ [] else rest ++ ((b'0' + n % 10) ∷ [])

-- A number of 64 bits has at most twenty digits.
unfoldable pub decimal : ℕ → List ℕ
unfolding digits
decimal n = digits 20 n

unfoldable pub print_int64 : ℕ → List ℕ
print_int64 count = if ltb count (2 ^ 63) then decimal count else b'-' ∷ decimal (2 ^ 64 - count)

-- The flags, as flag.Parse leaves them.
pub record Flags : Type 0 where
  pub addr : List ℕ
  pub keys : List ℕ
  pub insecure : Bool
  pub ca_cert : List ℕ

-- Why the program ends with log.Fatal.
pub data Fatal : Type 0 where
  keys_required : Fatal
  load_keys connect_failed : Error → Fatal

-- Where main stands, with the connection that Connect has left, if it has dialled one.
pub data Start (Full Pool Handler : Type 0) : Type 0 where
  fatal : Fatal → Dialled → Start Full Pool Handler
  running : KeyPair → Session Full Pool Handler → Dialled → Start Full Pool Handler

module _ {Full Pool Handler : Type 0} (print_error : Handler) where
  insecure_option : Bool → List (ConnectOption Full Pool Handler)
  insecure_option insecure = if insecure then with_insecure_skip_verify ∷ [] else []

  ca_cert_option : List ℕ → List (ConnectOption Full Pool Handler)
  ca_cert_option [] = []
  ca_cert_option (c ∷ path) = with_ca_cert_file (c ∷ path) ∷ []

  unfoldable pub options : KeyPair → Flags → List (ConnectOption Full Pool Handler)
  unfolding insecure_option ca_cert_option
  options keys flags =
      with_keys keys ∷ with_on_error (some print_error) ∷ insecure_option flags.insecure
      ++ ca_cert_option flags.ca_cert

  connected : KeyPair → Outcome Dialled (Session Full Pool Handler) → Start Full Pool Handler
  connected keys (ok session d) = running keys session d
  connected keys (err e d) = fatal (connect_failed e) d

  module _ {S : Type 0} (disk : Identity.Calls S) (calls : Connect.Calls Full Pool) (now : ℕ) where
    with_loaded : Flags → Outcome S KeyPair → Start Full Pool Handler × S
    with_loaded flags (err e s) = (fatal (load_keys e) none, s)
    with_loaded flags (ok keys s) =
        (connected keys (connect calls flags.addr now (options keys flags)), s)

    -- main of both programs, until it says that it runs. `now` is the clock when it authenticates.
    unfoldable pub start : Flags → S → Start Full Pool Handler × S
    unfolding with_loaded connected
    start flags s =
        if same_text flags.keys []
        then (fatal keys_required none, s)
        else with_loaded flags (load_or_generate disk flags.keys s)
