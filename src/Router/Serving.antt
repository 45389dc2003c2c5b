-- ===== src/Router/Serving.antt =====
-- The read loop of handleConn in pkg/router/router.go.
pub mod Publishes
pub mod Origin
pub mod Ends
use sprut.Router.Message.{Message, Session, handle_message}
use sprut.Io.{stopped, err, ok, running, Outcome, Error, Loop}
use sprut.Base.{not, [], ◌∷◌, if◌then◌else◌, Option, List, ◌⊎◌, ℕ, Bool}

-- What a round meets: whether closeCh is closed, whether the rate limiter allows a message, and the
-- clock.
pub record Round : Type 0 where
  pub closing : Bool
  pub allowed : Bool
  pub now : ℕ

-- An error ends the loop; whether it is logged as one depends on its kind.
after_message : Outcome Session (Unit {0}) → Loop × Session
after_message (ok a s) = (running, s)
after_message (err e s) = (stopped, s)

next_round : (Session → Loop × Session) → Loop × Session → Loop × Session
next_round f (running, s) = f s
next_round f (stopped, s) = (stopped, s)

module _ (marshal : Message → Error ⊎ List ℕ) (nats_publish : List ℕ → List ℕ → Option Error)
    (pub_key_hex : List ℕ) (max_size : ℕ) where
  unfoldable pub serve_step : Round → Session → Loop × Session
  unfolding after_message
  serve_step round s =
      if round.closing
      then (stopped, s)
      else if not round.allowed
      then (stopped, s)
      else after_message (handle_message marshal nats_publish pub_key_hex max_size round.now s)

  -- The rounds one after the other, until one returns.
  unfoldable pub serve_rounds : List Round → Session → Loop × Session
  unfolding next_round
  serve_rounds [] s = (running, s)
  serve_rounds (round ∷ rest) s = next_round (serve_rounds rest) (serve_step round s)
