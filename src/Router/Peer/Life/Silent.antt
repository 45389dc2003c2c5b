-- ===== src/Router/Peer/Life/Silent.antt =====
-- A peer of pkg/router/peer.go once it is closed.
use mathlib.Core.Path.{sym, subst}
use sprut.Base.{
  if_true, ◌||◌, append-nil, ◌&&◌, ◌++◌, ltb, ap, Bool-cases, ◌∙◌, Bool, ◌≡◌, ℕ, [], ◌∷◌, true,
  false, inl, inr, if◌then◌else◌, List, Option, length,
}
use sprut.Io.{Error, Outcome, ok, err, Loop, running, stopped}
use sprut.Router.Peer.Life.{happen, write_round, happens, Happening, arrival, round, closing}
use sprut.Router.Peer.{
  is_empty, write_message, take_next, enqueue, write_step, handle_nats_message, looped, Peer, close,
}
use sprut.Router.Peer.Shown.{write_message-Shows, Shows}

-- Closed, on a closed connection, which shows no more than `out`.
pub record IsSilent (out : List ℕ) (p : Peer) : Type 0 where
  pub closed : p.closed ≡ true
  pub conn_closed : p.conn.closed ≡ true
  pub output : p.conn.writer.output ≡ out

module _ (unsubscribe : Option Error) (out : List ℕ) where
  close-IsSilent : (p : Peer) → IsSilent out p → IsSilent out (close unsubscribe p)
  unfolding close
  close-IsSilent p i = subst (IsSilent out) (sym (if_true _ _ p.closed i.closed)) i

  arrival-IsSilent :
      (pick : Bool) (body : List ℕ) (p : Peer)
      → IsSilent out p
      → IsSilent out (handle_nats_message pick unsubscribe body p)
  unfolding handle_nats_message enqueue
  arrival-IsSilent pick body p i = elim (Bool-cases (ltb (length p.write_ch) p.capacity)) [
    | inl room ↦ rw room (by_pick (p.closed && pick))
    | inr full ↦ rw (full) (subst (IsSilent out) (sym (if_true _ _ p.closed i.closed)) i)
  ]
    where
      by_pick : (b : Bool) → IsSilent out (if b then p else enqueue body p)
      by_pick true = i
      by_pick false = record { closed = i.closed; conn_closed = i.conn_closed; output = i.output }

  looped-IsSilent :
      (body : List ℕ) (p : Peer) (o : Outcome Peer (Unit {0}))
      → IsSilent out p
      → Shows body p o
      → IsSilent out (looped unsubscribe o).1
  unfolding looped
  looped-IsSilent body p (ok u q) i (open_yet, a) = cc
  looped-IsSilent body p (err e q) i a = close-IsSilent q (record {
    closed = a.adds.alike.closed ∙ i.closed;
    conn_closed = a.adds.alike.conn_closed ∙ i.conn_closed;
    output =
        a.adds.output
        ∙ ap (λ l. p.conn.writer.output ++ l) (a.silent i.conn_closed)
        ∙ append-nil p.conn.writer.output
        ∙ i.output;
  })

  round-IsSilent :
      (pick : Bool) (now : ℕ) (l : Loop × Peer)
      → IsSilent out l.1
      → IsSilent out (write_round unsubscribe pick now l).1
  unfolding write_round write_step take_next
  round-IsSilent pick now (stopped, p) i = i
  round-IsSilent pick now (running, p) i =
      elim (Bool-cases (p.closed && (pick || is_empty p.write_ch))) [
        | inl past ↦ rw past i
        | inr on ↦ rw on (by_queue p.write_ch)
      ]
    where
      by_queue : (q : List (List ℕ)) → IsSilent out (take_next unsubscribe now p q).1
      by_queue [] = i
      by_queue (body ∷ waiting) =
          let taken = record p { write_ch = waiting } in
          looped-IsSilent body taken (write_message now body taken)
            (record { closed = i.closed; conn_closed = i.conn_closed; output = i.output })
            (write_message-Shows body now taken)

  -- It stays closed, and nothing more is shown.
  pub happens-IsSilent :
      (hs : List Happening) (l : Loop × Peer)
      → IsSilent out l.1
      → IsSilent out (happens unsubscribe hs l).1
  unfolding happens happen
  happens-IsSilent [] l i = i
  happens-IsSilent (arrival pick body ∷ hs) (loop, p) i =
      happens-IsSilent hs _ (arrival-IsSilent pick body p i)
  happens-IsSilent (round pick now ∷ hs) l i = happens-IsSilent hs _ (round-IsSilent pick now l i)
  happens-IsSilent (closing ∷ hs) (loop, p) i = happens-IsSilent hs _ (close-IsSilent p i)
