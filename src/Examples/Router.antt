-- ===== src/Examples/Router.antt =====
-- pkg/router and the subjects of pkg/broker at concrete inputs.
use sprut.Io.Ensures.{Ensures}
use sprut.Protocol.ClientMessage.{ClientMessage, frame}
use sprut.Router.Auth.{auth_buf_size, Env, AuthState, authenticate, check_timestamp}
use sprut.Router.Auth.Soundness.{Accepted, Intact}
use sprut.Router.Message.Safety.{handle_message-Sent, Sent, Unsent}
use sprut.Router.Message.{empty_message, handle_message, Message, Session}
use sprut.Base.{
  sym, some, refl, ap, false, leb, arith, All, ◌⊎◌, Option, length, ◌↔◌, Bool, ◌++◌, replicate, ◌∷◌,
  true, inr, ℕ, none, [], codes, ◌≡◌, List,
}
use sprut.Broker.Subject.{subject-tokens, IsPlain, subject_for_client, tokens}
use sprut.Router.Hex.{is_hex, all_hex, is_valid_hex_pub_key}
use sprut.Protocol.ChannelBinding.{ConnectionState}
use sprut.Router.Message.Accept.{handle_message_accepts, IsAccepted, session}
use sprut.Io.{Outcome, eof, challenge_expired, err, Error, ok}
use sprut.Router.Auth.Whole.{authenticate-Accepted}
use sprut.Router.Auth.Freshness.{check_timestamp_ahead}
use sprut.Broker.Subject.Receivers.{receivers_lem, Receiver}
use sprut.Router.Hex.Names.{IsLower}

-- A stand-in for proto.Marshal: the fields one after the other.
abbrev pub plain_marshal : Message → Error ⊎ List ℕ
plain_marshal m = inr (m.from ++ (m.to ++ (m.id ++ m.payload)))

abbrev pub always_taken : List ℕ → List ℕ → Option Error
always_taken subject body = none

abbrev pub alice : List ℕ
alice = replicate 64 b'a'

abbrev pub bob : List ℕ
bob = replicate 64 b'b'

abbrev pub note : ClientMessage
note = record { to = bob; msg_id = codes "m1"; payload = codes "hello" }

subject-tokens_example :
    (tokens (subject_for_client bob) ≡ codes "goro" ∷ codes "msg" ∷ bob ∷ []) × All IsPlain bob
subject-tokens_example = subject-tokens bob (unfold is_valid_hex_pub_key all_hex is_hex in refl)

-- Upper-case digits are accepted, and name no receiver.
abbrev shouting : List ℕ
shouting = replicate 64 b'A'

receivers_lem_example : IsProp (Receiver shouting) × (Receiver shouting ↔ All IsLower shouting)
receivers_lem_example = receivers_lem shouting (unfold is_valid_hex_pub_key all_hex is_hex in refl)

-- A session in which the client has sent a note and the start of another.
abbrev note_session : Session
note_session = session (frame note ++ (1 ∷ [])) eof (replicate 100 0) empty_message []

handle_message-Sent_example :
    Ensures
      (λ _. Sent plain_marshal always_taken alice [] 100 1700000000)
      (Unsent plain_marshal always_taken alice [] 100)
      (handle_message plain_marshal always_taken alice 100 1700000000 note_session)
handle_message-Sent_example =
    handle_message-Sent plain_marshal always_taken alice 100 1700000000 note_session

note-IsAccepted : IsAccepted note 100 (replicate 100 0)
unfolding is_valid_hex_pub_key all_hex is_hex
note-IsAccepted = record {
  sendable = omega arith;
  to_valid = refl;
  total_fits = omega arith;
  max_fits = omega arith;
  buf_fits = omega arith;
}

handle_message_accepts_example :
    (buf' : List ℕ) × (handle_message plain_marshal always_taken alice 100 1700000000 note_session
      ≡ ok tt (
          session
            (1 ∷ [])
            eof
            buf'
            empty_message
            ((subject_for_client bob, alice ++ (bob ++ codes "m1hello")) ∷ [])))
handle_message_accepts_example =
    handle_message_accepts plain_marshal always_taken alice note (1 ∷ []) eof (replicate 100 0)
      empty_message [] 100 1700000000 (alice ++ (bob ++ codes "m1hello")) note-IsAccepted refl refl

check_timestamp_ahead_example :
    ◌≡◌ {A = Outcome (Unit {0}) (Unit {0})}
      (check_timestamp 1700000030 1700000000 60 (tt {0}))
      (err challenge_expired (tt {0}))
check_timestamp_ahead_example =
    check_timestamp_ahead 1700000030 1700000000 60 (tt {0}) (omega arith) (omega arith)
      (omega arith) (omega arith)

abbrev some_state : ConnectionState
some_state = record {
  handshake_complete = true;
  export_keying_material = λ label n. inr (replicate n 6);
}

-- A client that has sent a hello, and a response with a signature.
abbrev pub auth_state : AuthState
auth_state = record {
  conn = record {
    reader = record { pending = 1 ∷ (replicate 32 3 ++ (3 ∷ replicate 64 9)); fin = eof };
    writer = record { output = []; room = 1000 };
    deadline = none;
    closed = false;
    tls = some some_state;
  };
  buf = replicate auth_buf_size 0;
}

abbrev pub auth_env : Env
auth_env = record {
  start = 1700000000;
  stamp = 1700000000;
  check = 1700000001;
  random = inr (replicate 32 7);
  timeout = 10;
  challenge_ttl = 60;
}

-- A stand-in for ed25519.Verify.
abbrev pub plain_verify : List ℕ → List ℕ → List ℕ → Bool
plain_verify key signed_data signature = leb 64 (length signature)

pub seven_drawn : (random : List ℕ) → auth_env.random ≡ inr random → length random ≡ 32
seven_drawn random e = let p : replicate 32 7 ≡ random = cc in ap length (sym p)

authenticate-Accepted_example :
    Ensures
      (λ _ s'. Accepted plain_verify auth_env auth_state s' × (s'.conn.deadline ≡ none))
      (λ _ s'. Intact auth_state s' × (s'.conn.deadline ≡ none))
      (authenticate plain_verify auth_env auth_state)
authenticate-Accepted_example =
    authenticate-Accepted plain_verify auth_env auth_state refl refl
      (record { stamp_fits = omega arith; check_fits = omega arith; ttl_fits = omega arith })
      seven_drawn
