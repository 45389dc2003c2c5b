-- ===== src/Client/Loops/Writing.antt =====
-- What writeLoop sends when nothing closes the connection under it.
use sprut.Client.Loops.{
  is_ready, close_reported, close_all, sent, sending, write_step, timeout_deadline, send_message,
  Run, OutgoingMessage,
}
use sprut.Protocol.ClientMessage
use sprut.Protocol.ClientMessage.{ClientMessage, IsSendable}
use sprut.Base.{
  negsuc, refl, ◌+◌, append_assoc, if◌then◌else◌, ap, ◌∙◌, some, pos, length-append, arith, not,
  append-nil, ◌||◌, sym, ◌&&◌, ◌≤◌, if_false, length, true, zero, false, [], ◌++◌, none, ◌≡◌, suc,
  All, ◌∷◌, ℤ, ℕ, Option, Bool, List,
}
use sprut.Io.{ok, push, stopped, running, Loop}
use sprut.Io.Conn.{set_deadline-open, writing-Writes, writing, Conn}

next : (Run → Loop × Run) → Loop × Run → Loop × Run
next f (running, r) = f r
next f (stopped, r) = (stopped, r)

-- At most `n` rounds of writeLoop, with a Close of the connection that succeeds; `clock` gives the
-- time of each round.
pub write_rounds : Bool → ℤ → (ℕ → ℕ) → Bool → ℕ → Run → Loop × Run
unfolding next
write_rounds on_error write_timeout clock pick zero r = (running, r)
write_rounds on_error write_timeout clock pick (suc n) r =
    next (write_rounds on_error write_timeout clock pick n)
      (write_step on_error none pick write_timeout (clock n) r)

abbrev pub client_message : OutgoingMessage → ClientMessage
client_message msg = record { to = msg.to; msg_id = msg.msg_id; payload = msg.payload }

abbrev pub sent_frames : List OutgoingMessage → List ℕ
sent_frames [] = []
sent_frames (msg ∷ rest) = ClientMessage.frame (client_message msg) ++ sent_frames rest

-- A connection that has sent a message, under some deadline.
abbrev conn_after : OutgoingMessage → Option ℕ → Conn → Conn
conn_after msg d c = record c {
  deadline = d;
  writer = push (ClientMessage.frame (client_message msg)) c.writer;
}

send_message-sends :
    (write_timeout : ℤ) (now : ℕ) (msg : OutgoingMessage) (c : Conn)
    → c.closed ≡ false
    → IsSendable (client_message msg)
    → length (ClientMessage.frame (client_message msg)) ≤ c.writer.room
    → (d : Option ℕ) × (send_message write_timeout now msg c ≡ ok tt (conn_after msg d c))
unfolding send_message timeout_deadline
send_message-sends write_timeout now msg c open_yet good room = by_timeout write_timeout
  where
    written :
        (d : Option ℕ)
        → writing (ClientMessage.encode (client_message msg)) (record c { deadline = d })
          ≡ ok tt (conn_after msg d c)
    written d =
        writing-Writes (ClientMessage.frame (client_message msg))
          (ClientMessage.encode (client_message msg)) (record c { deadline = d })
          (ClientMessage.ClientMessage-Transmits (client_message msg) good).written open_yet room

    by_timeout : (t : ℤ) → (d : Option ℕ) × (send_message t now msg c ≡ ok tt (conn_after msg d c))
    by_timeout (pos zero) = (c.deadline, written c.deadline)
    by_timeout (pos (suc n)) = (
      some (now + suc n),
      rw (set_deadline-open (some (now + suc n)) c open_yet) (written (some (now + suc n))),
    )
    by_timeout (negsuc n) = (c.deadline, written c.deadline)

module _ (on_error : Bool) (write_timeout : ℤ) (clock : ℕ → ℕ) (pick : Bool) where
  write_step-message :
      (now : ℕ) (msg : OutgoingMessage) (rest : List OutgoingMessage) (r : Run)
      → r.close_ch ≡ false
      → r.send ≡ msg ∷ rest
      → r.conn.closed ≡ false
      → IsSendable (client_message msg)
      → length (ClientMessage.frame (client_message msg)) ≤ r.conn.writer.room
      → (d : Option ℕ) × (write_step on_error none pick write_timeout now r
          ≡ (running, record r { conn = conn_after msg d r.conn; send = rest }))
  unfolding write_step sending sent
  write_step-message now msg rest r going queued open_yet good room =
      let (d, sends) = send_message-sends write_timeout now msg r.conn open_yet good room in
      (
        d,
        if_false _ _ (r.close_ch && (pick || not (is_ready r.send r.send_closed)))
              (ap (λ b. b && (pick || not (is_ready r.send r.send_closed))) going)
            ∙ ap (sending on_error none write_timeout now r) queued
            ∙ ap (sent on_error none (record r { send = rest })) sends,
      )

  write_step-end :
      (now : ℕ) (r : Run)
      → r.close_ch ≡ false
      → r.send ≡ []
      → r.send_closed ≡ true
      → write_step on_error none pick write_timeout now r
        ≡ (stopped, record r { close_ch = true; conn = record r.conn { closed = true } })
  unfolding write_step sending close_all close_reported
  write_step-end now r going empty ended =
      if_false _ _ (r.close_ch && (pick || not (is_ready r.send r.send_closed)))
        (ap (λ b. b && (pick || not (is_ready r.send r.send_closed))) going)
      ∙ ap (sending on_error none write_timeout now r) empty
      ∙ ap (λ b. if b then (stopped, close_all on_error none r) else (running, r)) ended
      ∙ ap (λ q. (stopped, q)) (if_false _ _ r.close_ch going)

  write_step-waits :
      (now : ℕ) (r : Run)
      → r.close_ch ≡ false
      → r.send ≡ []
      → r.send_closed ≡ false
      → write_step on_error none pick write_timeout now r ≡ (running, r)
  unfolding write_step sending
  write_step-waits now r going empty open_yet =
      if_false _ _ (r.close_ch && (pick || not (is_ready r.send r.send_closed)))
        (ap (λ b. b && (pick || not (is_ready r.send r.send_closed))) going)
      ∙ ap (sending on_error none write_timeout now r) empty
      ∙ ap (λ b. if b then (stopped, close_all on_error none r) else (running, r)) open_yet

  -- When the application has queued messages that may be sent, and closed its channel, one round for
  -- each message and one more bring writeLoop to its end: the frames of all of them are written, in
  -- order, none is reported as an error, and the connection is closed.
  pub write_rounds-sends :
      (msgs : List OutgoingMessage) (r : Run)
      → All (λ msg. IsSendable (client_message msg)) msgs
      → r.close_ch ≡ false
      → r.send ≡ msgs
      → r.send_closed ≡ true
      → r.conn.closed ≡ false
      → length (sent_frames msgs) ≤ r.conn.writer.room
      → let (loop, q) = write_rounds on_error write_timeout clock pick (suc (length msgs)) r in
        (loop ≡ stopped)
        × (q.conn.writer.output ≡ r.conn.writer.output ++ sent_frames msgs)
        × (q.errors ≡ r.errors)
        × (q.close_ch ≡ true)
        × (q.conn.closed ≡ true)
  unfolding write_rounds next
  write_rounds-sends [] r all going queued ended open_yet room =
      rw (write_step-end (clock 0) r going queued ended)
        (refl, sym (append-nil r.conn.writer.output), refl, refl, refl)
  write_rounds-sends (msg ∷ msgs) r (one, all) going queued ended open_yet room =
      let frame = ClientMessage.frame (client_message msg) in
      let (d, steps) =
        write_step-message (clock (suc (length msgs))) msg msgs r going queued open_yet one
          (omega (arith, room, length-append frame (sent_frames msgs))) in
      rw steps (
        let (stops, out, silent, shut, closed) =
          write_rounds-sends msgs (record r { conn = conn_after msg d r.conn; send = msgs }) all
            going refl ended open_yet
            (omega (arith, room, length-append frame (sent_frames msgs))) in
        (
          stops,
          out ∙ append_assoc r.conn.writer.output frame (sent_frames msgs),
          silent,
          shut,
          closed,
        ))

  -- With the channel still open, the round after the last message waits.
  pub write_rounds-waits :
      (msgs : List OutgoingMessage) (r : Run)
      → All (λ msg. IsSendable (client_message msg)) msgs
      → r.close_ch ≡ false
      → r.send ≡ msgs
      → r.send_closed ≡ false
      → r.conn.closed ≡ false
      → length (sent_frames msgs) ≤ r.conn.writer.room
      → (write_rounds on_error write_timeout clock pick (suc (length msgs)) r).1.conn.writer.output
        ≡ r.conn.writer.output ++ sent_frames msgs
  unfolding write_rounds next
  write_rounds-waits [] r all going queued more open_yet room =
      rw (write_step-waits (clock 0) r going queued more) (sym (append-nil r.conn.writer.output))
  write_rounds-waits (msg ∷ msgs) r (one, all) going queued more open_yet room =
      let frame = ClientMessage.frame (client_message msg) in
      let (d, steps) =
        write_step-message (clock (suc (length msgs))) msg msgs r going queued open_yet one
          (omega (arith, room, length-append frame (sent_frames msgs))) in
      rw steps (
        write_rounds-waits msgs (record r { conn = conn_after msg d r.conn; send = msgs }) all going
          refl more open_yet (omega (arith, room, length-append frame (sent_frames msgs)))
        ∙ append_assoc r.conn.writer.output frame (sent_frames msgs))

  -- Whether the channel is closed behind them or not, what it writes are the frames of the messages.
  pub write_rounds-outputs :
      (msgs : List OutgoingMessage) (r : Run)
      → All (λ msg. IsSendable (client_message msg)) msgs
      → r.close_ch ≡ false
      → r.send ≡ msgs
      → r.conn.closed ≡ false
      → length (sent_frames msgs) ≤ r.conn.writer.room
      → (write_rounds on_error write_timeout clock pick (suc (length msgs)) r).1.conn.writer.output
        ≡ r.conn.writer.output ++ sent_frames msgs
  write_rounds-outputs msgs r all going queued open_yet room = by_channel r.send_closed refl
    where
      by_channel :
          (b : Bool)
          → r.send_closed ≡ b
          → (write_rounds on_error write_timeout clock pick
              (suc (length msgs))
              r).1.conn.writer.output
            ≡ r.conn.writer.output ++ sent_frames msgs
      by_channel true e = (write_rounds-sends msgs r all going queued e open_yet room).1
      by_channel false e = write_rounds-waits msgs r all going queued e open_yet room
