-- ===== src/Client/Loops/Together/Drained.antt =====
-- writeLoop of pkg/client/client.go where the application has closed send.
use sprut.Client.Loops.Together.Stopping.{total, write_count}
use sprut.Client.Loops.Together.{
  end_sending, read_done, decoding, finish, polling, arrive, enqueue, delivering, ReadStage,
  write_turn, started, read_turn, turns, finish_at, Turn, turn, WriteStage, wrote, write_at, Life,
  write_done, writing,
}
use sprut.Base.{
  refl, sym, Bool-cases, ◌+◌, ◌∙◌, arith, ◌&&◌, ℤ, List, ◌≤◌, ◌≡◌, Option, ℕ, Bool, [], ◌∷◌, true,
  false, inl, inr, zero, suc, if◌then◌else◌, length, ◌⊎◌,
}
use sprut.Io.{wrap, err, running, ok, stopped, Outcome, Loop, Error}
use sprut.Router.Message.{Message}
use sprut.Client.Loops.{close_all, Run, sent, OutgoingMessage, write_step, sending}
use sprut.Client.Loops.Together.Rounds.{close_all-Matched, Matched}
use sprut.Io.Conn.{Conn}
use sprut.Client.Loops.Together.Draining.{read_at-IsAside, handle_error-Keeps}
use sprut.Client.Loops.Together.Sound.{turn-IsSound, IsSound, started-IsSound, turns-IsSound}
use sprut.Client.Loops.Together.Stopped.{turn-Nearer}

-- send is closed, writeLoop has not returned, and at most `n` messages wait.
record IsDraining (n : ℕ) (l : Life) : Type 0 where
  closing : l.run.send_closed ≡ true
  at_work : l.write_stage ≡ writing
  few : length l.run.send ≤ n

-- The connection is closed, or `n` further turns of writeLoop are enough.
Shutting : ℕ → Life → Type 0
Shutting zero l = l.run.close_ch ≡ true
Shutting (suc n) l = (l.run.close_ch ≡ true) ⊎ IsDraining n l

after_turn : Turn → ℕ → ℕ
after_turn (write_turn pick now) n = n
after_turn t n = suc n

left_over : (t : Turn) (n w : ℕ) → suc n ≤ write_count t + w → after_turn t n ≤ w
unfolding after_turn
left_over (write_turn pick now) n w h = omega (arith, h)
left_over (read_turn pick) n w h = omega (arith, h)
left_over finish n w h = omega (arith, h)
left_over end_sending n w h = omega (arith, h)
left_over (enqueue msg) n w h = omega (arith, h)
left_over (arrive bytes) n w h = omega (arith, h)

module _ (on_error : Bool) (close_error : Option Error) (unmarshal : List ℕ → Error ⊎ Message)
    (write_timeout : ℤ) where
  sent-IsDraining :
      (n : ℕ) (l : Life) (rest : List OutgoingMessage) (o : Outcome Conn (Unit {0}))
      → l.run.send_closed ≡ true
      → l.write_stage ≡ writing
      → length rest ≤ n
      → IsDraining n (
          wrote on_error close_error unmarshal write_timeout l
            (sent on_error close_error (record l.run { send = rest }) o))
  unfolding wrote sent
  sent-IsDraining n l rest (ok a c) e w h = record { closing = e; at_work = w; few = h }
  sent-IsDraining n l rest (err f c) e w h =
      let told =
        handle_error-Keeps on_error close_error (wrap "send message" f)
          (record l.run { send = rest; conn = c }) in
      record { closing = told.1 ∙ e; at_work = w; few = rw told.0 h }

  emptied-close :
      (l : Life) (b : Bool)
      → b ≡ true
      → Matched l.run
      → (wrote on_error close_error unmarshal write_timeout l (
          if b
          then (stopped, close_all on_error close_error l.run)
          else (running, l.run))).run.close_ch
        ≡ true
  unfolding wrote
  emptied-close l true e m = (close_all-Matched on_error close_error l.run m).1
  emptied-close l false e m = ground arith

  -- One turn of writeLoop.
  sending-Shutting :
      (n now : ℕ) (l : Life) (send : List OutgoingMessage)
      → Matched l.run
      → l.run.send_closed ≡ true
      → l.write_stage ≡ writing
      → length send ≤ n
      → Shutting n (
          wrote on_error close_error unmarshal write_timeout l
            (sending on_error close_error write_timeout now l.run send))
  unfolding sending Shutting
  sending-Shutting zero now l [] m e w h = emptied-close l l.run.send_closed e m
  sending-Shutting (suc n) now l [] m e w h = inl (emptied-close l l.run.send_closed e m)
  sending-Shutting zero now l (msg ∷ rest) m e w h = absurd (omega (arith, h))
  sending-Shutting (suc n) now l (msg ∷ rest) m e w h =
      inr (sent-IsDraining n l rest _ e w (omega (arith, h)))

  choice-Shutting :
      (n : ℕ) (l : Life) (p : Loop × Run) (a b : Bool)
      → a ≡ false
      → Shutting n (wrote on_error close_error unmarshal write_timeout l p)
      → Shutting n (
          wrote on_error close_error unmarshal write_timeout l
            (if a && b then (stopped, l.run) else p))
  choice-Shutting n l p true b e h = ground arith
  choice-Shutting n l p false b e h = h

  write_at-Shutting :
      (n : ℕ) (pick : Bool) (now : ℕ) (l : Life) (s : WriteStage)
      → l.write_stage ≡ s
      → Matched l.run
      → l.run.close_ch ≡ false
      → IsDraining n l
      → Shutting n (write_at on_error close_error unmarshal write_timeout pick now l s)
  unfolding write_at write_step
  write_at-Shutting n pick now l writing e m going d =
      choice-Shutting n l _ l.run.close_ch _ going
        (sending-Shutting n now l l.run.send m d.closing d.at_work d.few)
  write_at-Shutting n pick now l write_done e m going d = ground arith

  finish_at-IsDraining :
      (n : ℕ) (l : Life) (s : ReadStage) (w : WriteStage)
      → IsDraining n l
      → IsDraining n (finish_at on_error close_error unmarshal write_timeout l s w)
  unfolding finish_at
  finish_at-IsDraining n l read_done write_done d = record {
    closing = d.closing;
    at_work = d.at_work;
    few = d.few;
  }
  finish_at-IsDraining n l polling w d = d
  finish_at-IsDraining n l decoding w d = d
  finish_at-IsDraining n l (delivering msg) w d = d
  finish_at-IsDraining n l read_done writing d = d

  unsent-IsDraining :
      (n : ℕ) (l m : Life) (b : Bool)
      → b ≡ true
      → IsDraining n l
      → IsDraining n (if b then l else m)
  unsent-IsDraining n l m true e d = d
  unsent-IsDraining n l m false e d = ground arith

  turn-Shutting :
      (t : Turn) (n : ℕ) (l : Life)
      → Matched l.run
      → l.run.close_ch ≡ false
      → IsDraining n l
      → Shutting (after_turn t n) (turn on_error close_error unmarshal write_timeout t l)
  unfolding turn Shutting after_turn
  turn-Shutting (read_turn pick) n l m going d =
      let k = read_at-IsAside on_error close_error unmarshal write_timeout pick l l.read_stage in
      inr (record {
        closing = k.kept.1 ∙ d.closing;
        at_work = k.same_write ∙ d.at_work;
        few = rw k.kept.0 d.few;
      })
  turn-Shutting (write_turn pick now) n l m going d =
      write_at-Shutting n pick now l l.write_stage refl m going d
  turn-Shutting finish n l m going d = inr (finish_at-IsDraining n l l.read_stage l.write_stage d)
  turn-Shutting end_sending n l m going d =
      inr (record { closing = refl; at_work = d.at_work; few = d.few })
  turn-Shutting (enqueue msg) n l m going d =
      inr (unsent-IsDraining n l _ l.run.send_closed d.closing d)
  turn-Shutting (arrive bytes) n l m going d =
      inr (record { closing = d.closing; at_work = d.at_work; few = d.few })

  closed_stays :
      (ts : List Turn) (l : Life)
      → IsSound l
      → l.run.close_ch ≡ true
      → (turns on_error close_error unmarshal write_timeout ts l).run.close_ch ≡ true
  unfolding turns
  closed_stays [] l i h = h
  closed_stays (t ∷ ts) l i h =
      closed_stays ts _ (turn-IsSound on_error close_error unmarshal write_timeout t l i)
        (turn-Nearer on_error close_error unmarshal write_timeout t l (i.matched, h)).kept_shut

  Shutting-ends :
      (ts : List Turn) (n : ℕ) (l : Life)
      → IsSound l
      → n ≤ total write_count ts
      → Shutting n l
      → (turns on_error close_error unmarshal write_timeout ts l).run.close_ch ≡ true
  unfolding turns Shutting
  Shutting-ends ts zero l i h s = closed_stays ts l i s
  Shutting-ends ts (suc n) l i h (inl shut) = closed_stays ts l i shut
  Shutting-ends [] (suc n) l i h (inr d) = absurd (omega (arith, h))
  Shutting-ends (t ∷ ts) (suc n) l i h (inr d) = elim (Bool-cases l.run.close_ch) [
    | inl shut ↦ closed_stays (t ∷ ts) l i shut
    | inr going ↦
        Shutting-ends ts (after_turn t n) _
          (turn-IsSound on_error close_error unmarshal write_timeout t l i)
          (left_over t n (total write_count ts) h) (turn-Shutting t n l i.matched going d)
  ]

  by_stage :
      (l : Life) (s : WriteStage)
      → l.write_stage ≡ s
      → IsSound l
      → l.run.send_closed ≡ true
      → Shutting (suc (length l.run.send)) l
  unfolding Shutting
  by_stage l writing e i c = inr (record { closing = c; at_work = e; few = omega arith })
  by_stage l write_done e i c = inl (i.write_shut e)

  -- From the start of runLoop on an open connection: once the application has closed send, in every
  -- order of turns in which writeLoop takes one more than there are messages waiting, closeCh and
  -- the connection are closed.
  pub turns-drained :
      (ts us : List Turn) (conn : Conn) (send : List OutgoingMessage)
      → conn.closed ≡ false
      → let k = turns on_error close_error unmarshal write_timeout ts (started conn send) in
        k.run.send_closed ≡ true
        → suc (length k.run.send) ≤ total write_count us
        → let m = turns on_error close_error unmarshal write_timeout us k in
          (m.run.close_ch ≡ true) × (m.run.conn.closed ≡ true)
  turns-drained ts us conn send o c h =
      let k = turns on_error close_error unmarshal write_timeout ts (started conn send) in
      let i =
        turns-IsSound on_error close_error unmarshal write_timeout ts (started conn send)
          (started-IsSound conn send o) in
      let shut =
        Shutting-ends us (suc (length k.run.send)) k i h (by_stage k k.write_stage refl i c) in
      let j = turns-IsSound on_error close_error unmarshal write_timeout us k i in
      (shut, sym j.matched ∙ shut)
