-- ===== src/Client/Loops/Together/Rounds.antt =====
-- closeCh and the connection in the rounds of readLoop and writeLoop of pkg/client/client.go.
use sprut.Client.Loops.{
  Run, OutgoingMessage, handle_error, close_all, close_reported, read_failed, returned, write_step,
  sending, sent, send_message, timeout_deadline,
}
use sprut.Base.{
  ◌&&◌, if◌then◌else◌, sym, ◌||◌, ◌∙◌, List, ◌+◌, arith, Bool-cases, Option, ℕ, Bool, ◌≡◌, ℤ, [],
  ◌∷◌, some, true, false, inl, inr, pos, negsuc, zero, suc, refl,
}
use sprut.Io.{
  wrap, is_net_closed, is_eof, Error, Reader, Writer, Outcome, Loop, running, stopped, net_closed,
  ok, err,
}
use sprut.Io.Conn.{Conn, reading, reading_back, writing_back, set_deadline}
use sprut.Io.Ensures.{Ensures}

-- A call that leaves the connection open or closed as it was.
abbrev pub Same {ℓ} : {A : Type ℓ} → Bool → Outcome Conn A → Type 0
Same b o = Ensures (λ _ c. c.closed ≡ b) (λ _ c. c.closed ≡ b) o

pub reading_back-Same {ℓ} :
    {A : Type ℓ} (c : Conn) (o : Outcome Reader A) → Same c.closed (reading_back c o)
reading_back-Same c (ok a r) = refl
reading_back-Same c (err e r) = refl

writing_back-Same : (c : Conn) (o : Outcome Writer (Unit {0})) → Same c.closed (writing_back c o)
writing_back-Same c (ok a r) = refl
writing_back-Same c (err e r) = refl

send_message-Same :
    (write_timeout : ℤ) (now : ℕ) (msg : OutgoingMessage) (c : Conn)
    → Same c.closed (send_message write_timeout now msg c)
unfolding send_message timeout_deadline set_deadline sprut.Io.Conn.writing
send_message-Same (pos zero) now msg c = writing_back-Same c _
send_message-Same (pos (suc n)) now msg c = elim (Bool-cases c.closed) [
  | inl shut ↦ rw shut refl
  | inr open_yet ↦
      rw open_yet (writing_back-Same (record c { deadline = some (now + suc n); closed = false }) _)
]
send_message-Same (negsuc n) now msg c = writing_back-Same c _

-- closeCh is closed exactly where the connection is.
abbrev pub Matched : Run → Type 0
Matched r = r.close_ch ≡ r.conn.closed

-- Once it is closed it stays so.
abbrev pub Later : Run → Run → Type 0
Later r q = Matched q × (r.close_ch ≡ true → q.close_ch ≡ true)

abbrev pub Shut : Run → Type 0
Shut r = Matched r × (r.close_ch ≡ true)

-- What one round of writeLoop leaves.
abbrev pub Written : Run → Loop × Run → Type 0
Written r p = Later r p.1 × (p.0 ≡ stopped → p.1.close_ch ≡ true)

module _ (on_error : Bool) (close_error : Option Error) where
  handle_error-Matched :
      (e : Error) (r : Run) → Matched r → Matched (handle_error on_error close_error e r)
  unfolding handle_error
  handle_error-Matched e r m = ground arith

  pub close_all-Matched :
      (r : Run)
      → Matched r
      → Matched (close_all on_error close_error r)
        × ((close_all on_error close_error r).close_ch ≡ true)
  unfolding close_all close_reported handle_error
  close_all-Matched r m = ground arith

  pub handle_error-Later :
      (e : Error) (r : Run) → Matched r → Later r (handle_error on_error close_error e r)
  unfolding handle_error
  handle_error-Later e r m = ground arith

  failed_again :
      (e : Error) (r : Run) (b : Bool)
      → Matched r
      → Shut
          (if b
            then returned on_error close_error r
            else returned on_error close_error
                (handle_error on_error close_error (wrap "decode server message" e) r)).1
  unfolding returned
  failed_again e r true m = close_all-Matched r m
  failed_again e r false m = close_all-Matched _ (handle_error-Matched _ r m)

  pub read_failed-Shut :
      (e : Error) (r : Run) → Matched r → Shut (read_failed on_error close_error e r).1
  unfolding read_failed returned
  read_failed-Shut e r m = elim (Bool-cases (is_eof e || is_net_closed e)) [
    | inl ended ↦ rw ended (close_all-Matched r m)
    | inr bad ↦ rw bad (failed_again e r r.close_ch m)
  ]

  sent-Written :
      (r : Run) (rest : List OutgoingMessage) (o : Outcome Conn (Unit {0}))
      → Matched r
      → Same r.conn.closed o
      → Written r (sent on_error close_error (record r { send = rest }) o)
  unfolding sent
  sent-Written r rest (ok a c) m h = ((m ∙ sym h, λ k. k), ground arith)
  sent-Written r rest (err e c) m h = (handle_error-Later _ _ (m ∙ sym h), ground arith)

  nothing-Written :
      (r : Run) (b : Bool)
      → Matched r
      → Written r (if b then (stopped, close_all on_error close_error r) else (running, r))
  nothing-Written r true m =
      let done = close_all-Matched r m in ((done.0, λ k. done.1), λ k. done.1)
  nothing-Written r false m = ((m, λ k. k), ground arith)

  sending-Written :
      (write_timeout : ℤ) (now : ℕ) (r : Run) (send : List OutgoingMessage)
      → Matched r
      → Written r (sending on_error close_error write_timeout now r send)
  unfolding sending
  sending-Written write_timeout now r [] m = nothing-Written r r.send_closed m
  sending-Written write_timeout now r (msg ∷ rest) m =
      sent-Written r rest _ m (send_message-Same write_timeout now msg r.conn)

  leaving-Written :
      (r : Run) (p : Loop × Run) (a b : Bool)
      → Matched r
      → r.close_ch ≡ a
      → Written r p
      → Written r (if a && b then (stopped, r) else p)
  leaving-Written r p true true m shut w = ((m, λ k. k), λ k. shut)
  leaving-Written r p true false m shut w = w
  leaving-Written r p false b m shut w = w

  pub write_step-Written :
      (pick : Bool) (write_timeout : ℤ) (now : ℕ) (r : Run)
      → Matched r
      → Written r (write_step on_error close_error pick write_timeout now r)
  unfolding write_step
  write_step-Written pick write_timeout now r m =
      leaving-Written r _ r.close_ch _ m refl (sending-Written write_timeout now r r.send m)
