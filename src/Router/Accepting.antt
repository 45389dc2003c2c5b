-- ===== src/Router/Accepting.antt =====
-- The accept loop of Serve in pkg/router/router.go. What happens is a sequence of events; a handler
-- runs, as Handling has it, when it comes to its end. How handlers interleave in between is the
-- subject of Server.
pub mod Taken
pub mod Sound
pub mod Served
use sprut.Router.Auth.{AuthState, Env}
use sprut.Router.Message.{Message}
use sprut.Router.Serving.{Round}
use sprut.Router.Handling.{Shared, Surroundings, Handled, handle_conn, closed_conn}
use sprut.Io.Conn.{Conn}
use sprut.Base.{
  if◌then◌else◌, ◌++◌, ◌⊎◌, Option, List, Bool, ℕ, [], ◌∷◌, none, some, true, false, zero, suc,
}
use sprut.Io.{is_net_closed, stopped, running, Loop, Error}

-- The buffers in authSem, the connections that are handled with their buffers, the connections that
-- were turned away, and what the handlers share.
pub record Listening : Type 0 where
  pub sem : List (List ℕ)
  pub handlers : List AuthState
  pub refused : List Conn
  pub shared : Shared

-- What is particular to one connection: its clock and random bytes, the results of Subscribe and
-- Unsubscribe, the rounds of its read loop and the buffer lent to it.
pub record Visit : Type 0 where
  pub env : Env
  pub subscribe : List ℕ → Option Error
  pub unsubscribe : Option Error
  pub rounds : List Round
  pub pool_buf : List ℕ

-- Accept gives a connection, or it fails, with the context cancelled or not; or the handler in the
-- place `k` comes to its end.
pub data Event : Type 0 where
  incoming : Conn → Event
  accept_failed : Bool → Error → Event
  finished : ℕ → Visit → Event

-- The handlers without the one in the place `k`, and that one.
unfoldable pub take_out {ℓ} : {A : Type ℓ} → ℕ → List A → Option (A × List A)
take_out k [] = none
take_out zero (x ∷ xs) = some (x, xs)
take_out (suc k) (x ∷ xs) = elim (take_out k xs) [ none ↦ none | some (y, ys) ↦ some (y, x ∷ ys) ]

module _ (verify : List ℕ → List ℕ → List ℕ → Bool) (marshal : Message → Error ⊎ List ℕ)
    (nats_publish : List ℕ → List ℕ → Option Error) (max_size : ℕ) where
  abbrev pub surroundings : Visit → Surroundings
  surroundings v = record {
    verify = verify;
    subscribe = v.subscribe;
    unsubscribe = v.unsubscribe;
    marshal = marshal;
    nats_publish = nats_publish;
    max_size = max_size;
    env = v.env;
    rounds = v.rounds;
    pool_buf = v.pool_buf;
  }

  -- The select over authSem.
  admit : Conn → Listening → List (List ℕ) → Listening
  admit c l [] = record l { refused = closed_conn c ∷ l.refused }
  admit c l (buf ∷ rest) = record l {
    sem = rest;
    handlers = record { conn = c; buf = buf } ∷ l.handlers;
  }

  -- The deferred `authSem <- buf`.
  returned : Listening → List AuthState → Handled → Listening
  returned l rest h = record l { sem = l.sem ++ (h.buf ∷ []); handlers = rest; shared = h.shared }

  ended : Visit → Listening → Option (AuthState × List AuthState) → Listening
  ended v l none = l
  ended v l (some (s, rest)) = returned l rest (handle_conn (surroundings v) s l.shared)

  -- One event.
  unfoldable pub accept_step : Event → Listening → Loop × Listening
  unfolding admit ended returned
  accept_step (incoming c) l = (running, admit c l l.sem)
  accept_step (accept_failed cancelled e) l =
      if cancelled then (stopped, l) else if is_net_closed e then (stopped, l) else (running, l)
  accept_step (finished k v) l = (running, ended v l (take_out k l.handlers))

  next_event : (Listening → Loop × Listening) → Loop × Listening → Loop × Listening
  next_event f (running, l) = f l
  next_event f (stopped, l) = (stopped, l)

  unfoldable pub accept_rounds : List Event → Listening → Loop × Listening
  unfolding next_event
  accept_rounds [] l = (running, l)
  accept_rounds (e ∷ es) l = next_event (accept_rounds es) (accept_step e l)

-- As the loop begins.
abbrev pub listening : List (List ℕ) → Listening
listening bufs = record {
  sem = bufs;
  handlers = [];
  refused = [];
  shared = record { peers = []; closed = []; published = [] };
}
