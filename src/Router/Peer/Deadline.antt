-- ===== src/Router/Peer/Deadline.antt =====
-- The batched write deadline.
use sprut.Protocol.ServerMessage
use sprut.Router.Peer.{
  is_stale, encoded, refreshed, Peer, send_frame, refresh_deadline, write_message,
}
use sprut.Base.{
  none, refl, tests, inr, inl, ◌-◌, ltb, Bool-cases, if◌then◌else◌, Option, ap, arith, ◌/◌, ◌≤◌,
  ◌+◌, false, some, ◌≡◌, List, ℕ,
}
use sprut.Io.Conn.{writer_of, set_deadline-open, set_deadline, writing, writing_back}
use sprut.Io.Ensures.{Ensures-and_then, Ensures}
use sprut.Io.{err, ok, Outcome, Writer}

-- What the peer remembers of its deadline is what the connection has.
pub record IsTimed (now : ℕ) (p : Peer) : Type 0 where
  pub last_known :
      (last : ℕ)
      → p.last_deadline ≡ some last
      → (last ≤ now) × (p.conn.deadline ≡ some (last + p.write_timeout))

-- And it leaves the peer at least half of the timeout, and no more than all of it.
pub record IsGuarded (now : ℕ) (p : Peer) : Type 0 where
  pub timed : IsTimed now p
  pub until : ℕ
  pub deadline : p.conn.deadline ≡ some until
  pub at_least : now + p.write_timeout / 2 ≤ until
  pub at_most : until ≤ now + p.write_timeout

refresh_deadline-IsGuarded :
    (now : ℕ) (p : Peer)
    → p.conn.closed ≡ false
    → IsTimed now p
    → Ensures (λ _. IsGuarded now) (λ _. IsGuarded now) (refresh_deadline now p)
unfolding refresh_deadline
refresh_deadline-IsGuarded now p open_yet t = by_last p.last_deadline refl
  where
    fresh :
        Ensures
          (λ _. IsGuarded now)
          (λ _. IsGuarded now)
          (refreshed now p (set_deadline (some (now + p.write_timeout)) p.conn))
    fresh = rw (set_deadline-open (some (now + p.write_timeout)) p.conn open_yet) (record {
      timed = record {
        last_known = λ last e.
            let same : now ≡ last = cc in (omega arith, ap (λ k. some (k + p.write_timeout)) same);
      };
      until = now + p.write_timeout;
      deadline = refl;
      at_least = omega arith;
      at_most = omega arith;
    })

    by_last :
        (x : Option ℕ)
        → p.last_deadline ≡ x
        → Ensures
            (λ _. IsGuarded now)
            (λ _. IsGuarded now)
            (if is_stale now p.write_timeout x
              then refreshed now p (set_deadline (some (now + p.write_timeout)) p.conn)
              else ok tt p)
    by_last none e = fresh
    by_last (some last) e = elim (Bool-cases (ltb (p.write_timeout / 2) (now - last))) [
      | inl stale ↦ rw stale fresh
      | inr recent ↦
          let (past, kept) = t.last_known last e in
          rw recent (record {
            timed = t;
            until = last + p.write_timeout;
            deadline = kept;
            at_least = omega (tests, recent, past);
            at_most = omega (arith, past);
          })
    ]

send_frame-IsGuarded :
    (now : ℕ) (body : List ℕ) (p : Peer)
    → IsGuarded now p
    → Ensures (λ _. IsGuarded now) (λ _. IsGuarded now) (send_frame body p)
unfolding send_frame writing
send_frame-IsGuarded now body p g =
    by_result (ServerMessage.encode (record { body = body }) (writer_of p.conn))
  where
    keep : (w : Writer) → IsGuarded now (record p { conn = record p.conn { writer = w } })
    keep w = record {
      timed = record { last_known = λ last e. g.timed.last_known last e };
      until = g.until;
      deadline = g.deadline;
      at_least = g.at_least;
      at_most = g.at_most;
    }

    by_result :
        (o : Outcome Writer (Unit {0}))
        → Ensures (λ _. IsGuarded now) (λ _. IsGuarded now) (encoded p (writing_back p.conn o))
    by_result (ok a w) = keep w
    by_result (err e w) = keep w

-- Though the deadline is renewed only now and then, every message on an open connection is written
-- under one that is at least half of the write timeout away and at most the whole of it, and what the
-- peer remembers stays true of the connection, also after an error.
pub write_message-IsGuarded :
    (now : ℕ) (body : List ℕ) (p : Peer)
    → p.conn.closed ≡ false
    → IsTimed now p
    → Ensures (λ _. IsGuarded now) (λ _. IsGuarded now) (write_message now body p)
unfolding write_message
write_message-IsGuarded now body p open_yet t =
    Ensures-and_then (λ _. IsGuarded now) (λ _. IsGuarded now) (λ _. IsGuarded now)
      (refresh_deadline now p) _ (refresh_deadline-IsGuarded now p open_yet t)
      (λ a q g. send_frame-IsGuarded now body q g)
