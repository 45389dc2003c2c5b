-- ===== src/Testsprut/TestClient.antt =====
-- NewClient of pkg/testsprut/environment.go; PublicKeyHex is the hex text of the public key.
use sprut.Client.Loops.Together.{Turn, enqueue, end_sending}
use sprut.Testsprut.{Environment}
use sprut.Router.Hex.{encode_to_string}
use sprut.Client.Connect
use sprut.Client.Connect.{Session, Dialled, connect}
use sprut.Client.Connect.Outcomes.{IsConnected, IsUnconnected, connect-IsConnected}
use sprut.Client.Options.{
  ConnectOption, with_keys, with_insecure_skip_verify, with_dial_timeout, with_write_timeout,
  apply_option, apply_options, default_config,
}
use sprut.Identity.{KeyPair}
use sprut.Io.Conn.{Conn}
use sprut.Io.Ensures.{Ensures}
use sprut.Base.{
  refl, ◌∙◌, sym, ap, inr, negsuc, some, inl, [], ◌⊎◌, pos, none, true, false, ◌∷◌, ◌≡◌, Bool, List,
  ℕ,
}
use sprut.Io.{wrap, err, Error, ok, Outcome}

-- Client: the session behind its channels, and whether the channel for sending is closed.
pub record TestClient (Full Pool Handler : Type 0) : Type 0 where
  pub session : Session Full Pool Handler
  pub pub_key_hex : List ℕ

-- SendMessage and Close, by what they do to the client's channel.
abbrev pub send_test_message : List ℕ → List ℕ → List ℕ → Turn
send_test_message to msg_id payload =
    enqueue (record { to = to; msg_id = msg_id; payload = payload })

abbrev pub close_client : Turn
close_client = end_sending

-- What NewClient leaves: a connection, if one was dialled, and whether it closed its channel.
pub record Left : Type 0 where
  pub dialled : Dialled
  pub send_closed : Bool

-- Nothing is left open.
pub record IsShut (left : Left) : Type 0 where
  pub no_connection :
      (left.dialled ≡ none) ⊎ ((c : Conn) × (left.dialled ≡ some c) × (c.closed ≡ true))
  pub send_shut : left.send_closed ≡ true

module _ {Full Pool : Type 0} (Handler : Type 0) where
  abbrev pub test_options : KeyPair → List (ConnectOption Full Pool Handler)
  test_options keys =
      with_keys keys
      ∷ with_insecure_skip_verify
      ∷ with_dial_timeout 10000000000
      ∷ with_write_timeout (pos 10000000000)
      ∷ []

  new_client_with :
      KeyPair
      → Outcome Dialled (Session Full Pool Handler)
      → Outcome Left (TestClient Full Pool Handler)
  new_client_with keys (ok s d) =
      ok (record { session = s; pub_key_hex = encode_to_string keys.public_key })
        (record { dialled = d; send_closed = false })
  new_client_with keys (err e d) =
      err (wrap "connect to Sprut" e) (record { dialled = d; send_closed = true })

  module _ (calls : Connect.Calls Full Pool) (now : ℕ) where
    -- NewClient.
    unfoldable pub new_client : Environment → KeyPair → Outcome Left (TestClient Full Pool Handler)
    unfolding new_client_with
    new_client env keys =
        new_client_with keys
          (connect {Handler = Handler} calls env.sprut_addr now (test_options keys))

    -- A client whose session runs with the caller's keys over an authenticated connection.
    pub record IsReady (env : Environment) (keys : KeyPair) (c : TestClient Full Pool Handler)
        (left : Left) : Type 0 where
      pub connected :
          IsConnected calls env.sprut_addr now (test_options keys) c.session left.dialled
      pub own_keys : c.session.cfg.keys ≡ keys
      pub own_name : c.pub_key_hex ≡ encode_to_string keys.public_key
      pub capacity : c.session.capacity ≡ 100
      pub send_open : left.send_closed ≡ false

    -- NewClient gives a client on a connection as Connect gives it, that runs with the caller's keys,
    -- not with those that Connect generates first, has a queue of 100 messages and an open channel for
    -- sending; or it fails, with no connection left open and the channel closed.
    pub new_client-IsReady :
        (env : Environment) (keys : KeyPair)
        → Ensures (IsReady env keys) (λ _ l. IsShut l) (new_client env keys)
    unfolding new_client apply_option apply_options default_config
    new_client-IsReady env keys =
        by_connect (connect {Handler = Handler} calls env.sprut_addr now (test_options keys))
          (connect-IsConnected calls env.sprut_addr now (test_options keys))
      where
        apart : (n : ℕ) → pos 100 ≡ negsuc n → ⊥
        apart n h = cc

        shut :
            (e : Error) (d : Dialled)
            → IsUnconnected calls env.sprut_addr now (test_options keys) e d
            → IsShut (record { dialled = d; send_closed = true })
        shut e none IsUnconnected.not_dialled = record {
          no_connection = inl refl;
          send_shut = refl;
        }
        shut e (some c) (IsUnconnected.closed_again d h) = record {
          no_connection = inr (d, refl, h);
          send_shut = refl;
        }
        shut e (some c) (IsUnconnected.panicked other n d h p) = absurd (apart n h)

        by_connect :
            (o : Outcome Dialled (Session Full Pool Handler))
            → Ensures
                (IsConnected calls env.sprut_addr now (test_options keys))
                (IsUnconnected calls env.sprut_addr now (test_options keys))
                o
            → Ensures (IsReady env keys) (λ _ l. IsShut l) (new_client_with keys o)
        by_connect (ok s d) v = record {
          connected = v;
          own_keys = ap (λ c. c.keys) v.is_configured;
          own_name = refl;
          capacity = cc (sym (ap (λ c. c.read_buf_size) v.is_configured) ∙ v.is_buffered);
          send_open = refl;
        }
        by_connect (err e d) v = shut e d v
