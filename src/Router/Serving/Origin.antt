-- ===== src/Router/Serving/Origin.antt =====
-- What a client's whole session can publish.
use sprut.Io.{running, stopped}
use sprut.Router.Serving.{next_round, after_message, Round, serve_step, serve_rounds}
use sprut.Router.Message.{Message, Session}
use sprut.Router.Message.Safety.{handle_message-Sent, Sent, Unsent}
use sprut.Io.{err, ok, Loop, Outcome, Error}
use sprut.Base.{
  All-append, refl, length-append, true, append_assoc, suc, ap, arith, ◌∙◌, ◌≤◌, append-nil, sym,
  inl, ◌∷◌, ◌++◌, inr, All, [], length, Bool-cases, ◌≡◌, ◌+◌, Option, ℕ, List, ◌⊎◌,
}
use sprut.Io.Ensures.{Ensures}
use sprut.Broker.Subject.{subject_for_client}
use sprut.Router.Hex.{is_valid_hex_pub_key}
use sprut.Protocol.{max_msg_id_len}

module _ (marshal : Message → Error ⊎ List ℕ) (nats_publish : List ℕ → List ℕ → Option Error)
    (pub_key_hex : List ℕ) (max_size : ℕ) where
  -- What was published is the wire form of a message from this client to a valid recipient, under that
  -- recipient's subject, within the limits.
  pub record IsOwn (published : List ℕ × List ℕ) : Type 0 where
    pub msg : Message
    pub marshalled : marshal msg ≡ inr published.1
    pub subject : published.0 ≡ subject_for_client msg.to
    pub from_client : msg.from ≡ pub_key_hex
    pub to_valid : is_valid_hex_pub_key msg.to ≡ true
    pub id_fits : length msg.id ≤ max_msg_id_len
    pub total_fits : length msg.to + 2 + length msg.id + length msg.payload ≤ max_size

  -- At most `n` publications of its own behind the `old` ones.
  pub record IsGrown (n : ℕ) (old now : List (List ℕ × List ℕ)) : Type 0 where
    pub added : List (List ℕ × List ℕ)
    pub grown : now ≡ old ++ added
    pub few : length added ≤ n
    pub own : All IsOwn added

  same-IsGrown : (n : ℕ) (l : List (List ℕ × List ℕ)) → IsGrown n l l
  same-IsGrown n l = record { added = []; grown = sym (append-nil l); few = omega arith; own = tt }

  IsGrown-widen : {m n : ℕ} {a b : List (List ℕ × List ℕ)} → m ≤ n → IsGrown m a b → IsGrown n a b
  IsGrown-widen h g = record {
    added = g.added;
    grown = g.grown;
    few = omega (arith, h, g.few);
    own = g.own;
  }

  IsGrown-trans :
      {m n : ℕ} {a b c : List (List ℕ × List ℕ)}
      → IsGrown m a b
      → IsGrown n b c
      → IsGrown (m + n) a c
  IsGrown-trans {m} {n} {a} {b} {c} g h = record {
    added = g.added ++ h.added;
    grown = h.grown ∙ ap (λ l. l ++ h.added) g.grown ∙ append_assoc a g.added h.added;
    few = omega (arith, length-append g.added h.added, g.few, h.few);
    own = All-append IsOwn g.added h.added g.own h.own;
  }

  after_message-IsGrown :
      (old : List (List ℕ × List ℕ)) (now size : ℕ) (o : Outcome Session (Unit {0}))
      → Ensures
          (λ _. Sent marshal nats_publish pub_key_hex old max_size now)
          (Unsent marshal nats_publish pub_key_hex old size)
          o
      → IsGrown 1 old (after_message o).1.published
  unfolding after_message
  after_message-IsGrown old now size (ok a s) v = record {
    added = (subject_for_client v.msg.to, v.body) ∷ [];
    grown = v.published;
    few = omega arith;
    own = (
      record {
        msg = v.msg;
        marshalled = v.marshalled;
        subject = refl;
        from_client = v.from_client;
        to_valid = v.to_valid;
        id_fits = v.id_fits;
        total_fits = v.total_fits;
      },
      tt,
    );
  }
  after_message-IsGrown old now size (err e s) v = rw v.0 (same-IsGrown 1 old)

  serve_step-IsGrown :
      (round : Round) (s : Session)
      → IsGrown 1 s.published
          (serve_step marshal nats_publish pub_key_hex max_size round s).1.published
  unfolding serve_step
  serve_step-IsGrown round s = elim (Bool-cases round.closing) [
    | inl shut ↦ rw shut (same-IsGrown 1 s.published)
    | inr going ↦ elim (Bool-cases round.allowed) [
      | inr limited ↦ rw (going, limited) (same-IsGrown 1 s.published)
      | inl allowed ↦
          rw (going, allowed)
            (after_message-IsGrown s.published round.now (length s.buf) _
              (handle_message-Sent marshal nats_publish pub_key_hex max_size round.now s))
    ]
  ]

  -- Whatever a client sends, and however the rounds of its read loop fall: what the loop publishes is
  -- at most one message for each round, each of them from this client, to a valid recipient, under
  -- that recipient's subject and within the limits; what was published before stays as it is.
  pub serve_rounds-IsGrown :
      (rounds : List Round) (s : Session)
      → IsGrown
          (length rounds)
          s.published
          (serve_rounds marshal nats_publish pub_key_hex max_size rounds s).1.published
  unfolding serve_rounds next_round
  serve_rounds-IsGrown [] s = same-IsGrown 0 s.published
  serve_rounds-IsGrown (round ∷ rest) s =
      continued (serve_step marshal nats_publish pub_key_hex max_size round s)
        (serve_step-IsGrown round s)
        (serve_rounds-IsGrown rest (serve_step marshal nats_publish pub_key_hex max_size round s).1)
    where
      continued :
          (r : Loop × Session)
          → IsGrown 1 s.published r.1.published
          → IsGrown
              (length rest)
              r.1.published
              (serve_rounds marshal nats_publish pub_key_hex max_size rest r.1).1.published
          → IsGrown
              (suc (length rest))
              s.published
              (next_round
                (serve_rounds marshal nats_publish pub_key_hex max_size rest)
                r).1.published
      continued (running, t) g h = IsGrown-widen (omega arith) (IsGrown-trans g h)
      continued (stopped, t) g h = IsGrown-widen (omega arith) g
