-- ===== src/Router/Serving/Ends.antt =====
-- The read loop comes to an end when its client does.
use sprut.Router.Serving.{Round, serve_step, serve_rounds, after_message, next_round}
use sprut.Router.Message.{Message, Session}
use sprut.Router.Message.Consumes.{Shrinks, Anything, handle_message-Shrinks}
use sprut.Io.{err, ok, running, stopped, Outcome, Loop, Error}
use sprut.Base.{refl, [], ◌∷◌, arith, inr, ◌≡◌, ◌<◌, inl, length, Bool-cases, Option, ℕ, List, ◌⊎◌}
use sprut.Io.Ensures.{Ensures}

module _ (marshal : Message → Error ⊎ List ℕ) (nats_publish : List ℕ → List ℕ → Option Error)
    (pub_key_hex : List ℕ) (max_size : ℕ) where
  -- The loop has returned, or it has gone on and taken four bytes.
  abbrev Advances : Session → Loop × Session → Type 0
  Advances s (stopped, t) = Unit
  Advances s (running, t) = Shrinks {A = Unit {0}} 4 s tt t

  after_message-Advances :
      (s : Session) (o : Outcome Session (Unit {0}))
      → Ensures (Shrinks 4 s) Anything o
      → Advances s (after_message o)
  unfolding after_message
  after_message-Advances s (ok a t) h = h
  after_message-Advances s (err e t) h = tt

  serve_step-Advances :
      (round : Round) (s : Session)
      → Advances s (serve_step marshal nats_publish pub_key_hex max_size round s)
  unfolding serve_step
  serve_step-Advances round s = elim (Bool-cases round.closing) [
    | inl shut ↦ rw shut tt
    | inr going ↦ elim (Bool-cases round.allowed) [
      | inr limited ↦ rw (going, limited) tt
      | inl allowed ↦
          rw (going, allowed)
            (after_message-Advances s _
              (handle_message-Shrinks marshal nats_publish pub_key_hex max_size round.now s))
    ]
  ]

  -- Once a client's stream has ended, whatever is left of it: within as many rounds as there are
  -- bytes left, and one more, the read loop returns.
  serve_rounds_end :
      (rounds : List Round) (s : Session)
      → length s.reader.pending < length rounds
      → (serve_rounds marshal nats_publish pub_key_hex max_size rounds s).0 ≡ stopped
  unfolding serve_rounds next_round
  serve_rounds_end [] s h = absurd (omega arith)
  serve_rounds_end (round ∷ rest) s h =
      continued (serve_step marshal nats_publish pub_key_hex max_size round s)
        (serve_step-Advances round s) (λ t. serve_rounds_end rest t)
    where
      continued :
          (r : Loop × Session)
          → Advances s r
          → ((t : Session)
              → length t.reader.pending < length rest
              → (serve_rounds marshal nats_publish pub_key_hex max_size rest t).0 ≡ stopped)
          → (next_round (serve_rounds marshal nats_publish pub_key_hex max_size rest) r).0 ≡ stopped
      continued (running, t) a f = f t (omega arith)
      continued (stopped, t) a f = refl
