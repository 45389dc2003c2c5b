-- ===== src/Router/Accepting/Sound.antt =====
-- What always holds of the server, whatever connects to it.
use mathlib.Core.Path.{ap, sym, subst}
use mathlib.Core.List.{Memᴰ}
use sprut.Router.Accepting.{
  Listening, Visit, Event, incoming, accept_failed, finished, take_out, surroundings, admit,
  returned, ended, accept_step, next_event, accept_rounds,
}
use sprut.Router.Auth.{AuthState}
use sprut.Router.Auth.Soundness.{Accepted}
use sprut.Router.Auth.Verified.{IsTimely}
use sprut.Router.Handling.{Handled, peer_id, handle_conn}
use sprut.Router.Handling.Authentic.{IsHandled, IsTurnedAway, IsSession, handle_conn-IsHandled}
use sprut.Router.Serving.Origin.{IsOwn}
use sprut.Router.Setup.Buffers.{IsAuthBuffer}
use sprut.Router.Message.{Message}
use sprut.Router.Hex.{encode_to_string}
use sprut.Base.{
  All-append, Bool-cases, ◌∙◌, refl, length-append, arith, ◌+◌, ◌⊎◌, Option, All, length, Bool, ◌≡◌,
  List, ℕ, [], ◌∷◌, none, some, true, false, inl, inr,
}
use sprut.Io.{stopped, running, is_net_closed, Loop, Error}
use sprut.Io.Conn.{Conn}
use sprut.Router.Accepting.Taken.{IsTaken, take_out-IsTaken}

-- A new connection is open, the clocks are of this era, and rand.Read fills the challenge.
abbrev pub IsFair : Event → Type 0
IsFair (incoming c) = c.closed ≡ false
IsFair (accept_failed cancelled e) = Unit
IsFair (finished k v) =
    IsTimely v.env × ((random : List ℕ) → v.env.random ≡ inr random → length random ≡ 32)

module _ (verify : List ℕ → List ℕ → List ℕ → Bool) (marshal : Message → Error ⊎ List ℕ)
    (nats_publish : List ℕ → List ℕ → Option Error) (max_size : ℕ) (n : ℕ) (server_id : List ℕ)
    (all : List Event) where
  -- On one of the connections that came in, and in the visit of its handler, a key has signed a
  -- challenge of this server, and what was published is that key's own.
  pub record IsSigned (p : List ℕ × List ℕ) : Type 0 where
    pub visit : Visit
    pub place : ℕ
    pub visited : Memᴰ (finished place visit) all
    pub before : AuthState
    pub came : Memᴰ (incoming before.conn) all
    pub buffer : IsAuthBuffer server_id before.buf
    pub after : AuthState
    pub accepted : Accepted verify visit.env before after
    pub own :
        IsOwn marshal nats_publish
          (encode_to_string
            (peer_id (surroundings verify marshal nats_publish max_size visit) after))
          max_size
          p

  -- A connection in the hands of a handler.
  pub record IsHeld (s : AuthState) : Type 0 where
    pub came : Memᴰ (incoming s.conn) all
    pub open_yet : s.conn.closed ≡ false
    pub buffer : IsAuthBuffer server_id s.buf

  pub record IsSound (l : Listening) : Type 0 where
    pub conserved : length l.sem + length l.handlers ≡ n
    pub buffers : All (IsAuthBuffer server_id) l.sem
    pub held : All IsHeld l.handlers
    pub signed : All IsSigned l.shared.published

  admit-IsSound :
      (c : Conn) (l : Listening) (sem : List (List ℕ))
      → Memᴰ (incoming c) all
      → c.closed ≡ false
      → sem ≡ l.sem
      → IsSound l
      → IsSound (admit verify marshal nats_publish max_size c l sem)
  unfolding admit
  admit-IsSound c l [] met o e v = record {
    conserved = v.conserved;
    buffers = v.buffers;
    held = v.held;
    signed = v.signed;
  }
  admit-IsSound c l (buf ∷ rest) met o e v =
      let (good, others) = subst (All (IsAuthBuffer server_id)) (sym e) v.buffers in
      record {
        conserved = omega (arith, v.conserved, ap length e);
        buffers = others;
        held = (record { came = met; open_yet = o; buffer = good }, v.held);
        signed = v.signed;
      }

  All-IsSigned :
      (k : ℕ) (v : Visit) (s t : AuthState) (added : List (List ℕ × List ℕ))
      → Memᴰ (finished k v) all
      → Memᴰ (incoming s.conn) all
      → IsAuthBuffer server_id s.buf
      → Accepted verify v.env s t
      → All
          (IsOwn marshal nats_publish
            (encode_to_string (peer_id (surroundings verify marshal nats_publish max_size v) t))
            max_size)
          added
      → All IsSigned added
  All-IsSigned k v s t [] m c b a o = tt
  All-IsSigned k v s t (p ∷ added) m c b a (o, os) = (
    record {
      visit = v;
      place = k;
      visited = m;
      before = s;
      came = c;
      buffer = b;
      after = t;
      accepted = a;
      own = o;
    },
    All-IsSigned k v s t added m c b a os,
  )

  signed_after :
      (k : ℕ) (v : Visit) (s : AuthState) (l : Listening) (h : Handled)
      → Memᴰ (finished k v) all
      → Memᴰ (incoming s.conn) all
      → IsAuthBuffer server_id s.buf
      → All IsSigned l.shared.published
      → IsTurnedAway (surroundings verify marshal nats_publish max_size v) s l.shared h
        ⊎ IsSession (surroundings verify marshal nats_publish max_size v) s l.shared h
      → All IsSigned h.shared.published
  signed_after k v s l h m c b old (inl away) =
      subst (λ x. All IsSigned x.published) (sym away.same) old
  signed_after k v s l h m c b old (inr session) = subst (All IsSigned) (sym session.own.grown) (
      All-append IsSigned l.shared.published session.own.added old (
        All-IsSigned k v s session.signed session.own.added m c b session.accepted session.own.own))

  ended-IsSound :
      (k : ℕ) (v : Visit) (l : Listening) (o : Option (AuthState × List AuthState))
      → Memᴰ (finished k v) all
      → IsTimely v.env
      → ((random : List ℕ) → v.env.random ≡ inr random → length random ≡ 32)
      → ((p : AuthState × List AuthState) → o ≡ some p → IsTaken IsHeld l.handlers p)
      → IsSound l
      → IsSound (ended verify marshal nats_publish max_size v l o)
  unfolding ended returned
  ended-IsSound k v l none met timely random taken sound = sound
  ended-IsSound k v l (some (s, rest)) met timely random taken sound =
      let t = taken (s, rest) refl in
      let w = surroundings verify marshal nats_publish max_size v in
      let h = handled s t.one in
      record {
        conserved = omega (
          arith,
          sound.conserved,
          t.counted,
          length-append l.sem ((handle_conn w s l.shared).buf ∷ []),
        );
        buffers =
            All-append (IsAuthBuffer server_id) l.sem ((handle_conn w s l.shared).buf ∷ [])
              sound.buffers
              (
                (record {
                  len = h.buf_len ∙ t.one.buffer.len;
                  id_fits = t.one.buffer.id_fits;
                  id_at = h.server_id ∙ t.one.buffer.id_at;
                }),
                tt,
              );
        held = t.rest;
        signed =
            signed_after k v s l (handle_conn w s l.shared) met t.one.came t.one.buffer sound.signed
              h.conduct;
      }
    where
      handled :
          (s : AuthState)
          → IsHeld s
          → IsHandled
              (surroundings verify marshal nats_publish max_size v)
              s
              l.shared
              (handle_conn (surroundings verify marshal nats_publish max_size v) s l.shared)
      handled s one =
          handle_conn-IsHandled (surroundings verify marshal nats_publish max_size v) s l.shared
            one.open_yet one.buffer.len timely random

  accept_step-IsSound :
      (e : Event) (l : Listening)
      → Memᴰ e all
      → IsFair e
      → IsSound l
      → IsSound (accept_step verify marshal nats_publish max_size e l).1
  unfolding accept_step
  accept_step-IsSound (incoming c) l met o sound = admit-IsSound c l l.sem met o refl sound
  accept_step-IsSound (accept_failed true e) l met f sound = sound
  accept_step-IsSound (accept_failed false e) l met f sound = elim (Bool-cases (is_net_closed e)) [
    | inl shut ↦ rw shut sound
    | inr other ↦ rw other sound
  ]
  accept_step-IsSound (finished k v) l met (timely, random) sound =
      ended-IsSound k v l (take_out k l.handlers) met timely random
        (λ p t. take_out-IsTaken IsHeld k l.handlers p sound.held t) sound

  pub accept_rounds-IsSound :
      (es : List Event) (l : Listening)
      → ((e : Event) → Memᴰ e es → Memᴰ e all)
      → All IsFair es
      → IsSound l
      → IsSound (accept_rounds verify marshal nats_publish max_size es l).1
  unfolding accept_rounds next_event
  accept_rounds-IsSound [] l within f sound = sound
  accept_rounds-IsSound (e ∷ es) l within (f, fs) sound =
      continued (accept_step verify marshal nats_publish max_size e l)
        (accept_step-IsSound e l (within e (Memᴰ.head refl)) f sound)
        (λ q k. accept_rounds-IsSound es q (λ x m. within x (Memᴰ.tail m)) fs k)
    where
      continued :
          (r : Loop × Listening)
          → IsSound r.1
          → ((q : Listening)
              → IsSound q
              → IsSound (accept_rounds verify marshal nats_publish max_size es q).1)
          → IsSound
              (next_event verify marshal nats_publish max_size
                (accept_rounds verify marshal nats_publish max_size es)
                r).1
      continued (running, q) k f = f q k
      continued (stopped, q) k f = k
