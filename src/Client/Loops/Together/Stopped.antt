-- ===== src/Client/Loops/Together/Stopped.antt =====
-- writeLoop and runLoop of pkg/client/client.go where closeCh is closed.
use sprut.Client.Loops.Together.Sound.{turn-IsSound, IsSound, turns-IsSound, started-IsSound}
use sprut.Base.{
  inl, inr, ◌⊎◌, ◌++◌, not, ◌||◌, ◌&&◌, refl, inr, inl, ◌+◌, ℤ, ◌≤◌, ◌⊎◌, ◌∙◌, ◌≡◌, arith, length,
  ℕ, Option, List, Bool, [], ◌∷◌, true, false, suc, if◌then◌else◌,
}
use sprut.Client.Loops.Together.{
  started, turn, finish_at, turns, wrote, write_at, Life, Turn, WriteStage, ReadStage, read_done,
  write_done, polling, decoding, delivering, writing, read_turn, write_turn, finish, end_sending,
  enqueue, arrive,
}
use sprut.Client.Loops.{sending, sent, write_step, is_ready, close_all, OutgoingMessage}
use sprut.Io.{running, stopped, err, ok, Outcome, wrap, Error}
use sprut.Router.Message.{Message}
use sprut.Io.Conn.{Conn}
use sprut.Client.Loops.Together.Rounds.{close_all-Matched, Shut}
use sprut.Base.{[], ◌∷◌, true, false, inl, inr, suc, if◌then◌else◌}
use sprut.Client.Loops.Together.{
  read_done, write_done, polling, decoding, delivering, writing, read_turn, write_turn, finish,
  end_sending, enqueue, arrive,
}
use sprut.Client.Loops.Together.Stopping.{
  total, read_at-Nearer, enqueue_count, write_count, handle_error-Stays, written-Nearer, read_count,
  Nearer, read_left, write_left,
}
use sprut.Client.Loops.Together.Counts.{
  Enough-next, no_writes, at_most-write_left, over_more, no_reads, Enough, more, at_most-read_left,
}

same-Nearer : (l : Life) → l.run.close_ch ≡ true → Nearer 0 0 0 l l
same-Nearer l h = record {
  kept_shut = h;
  fewer_reads = omega arith;
  fewer_writes = omega arith;
  stays_over = λ z. z;
}

module _ (on_error : Bool) (close_error : Option Error) (unmarshal : List ℕ → Error ⊎ Message)
    (write_timeout : ℤ) where
  sent-Nearer :
      (l : Life) (msg : OutgoingMessage) (rest : List OutgoingMessage) (o : Outcome Conn (Unit {0}))
      → l.run.send ≡ msg ∷ rest
      → l.write_stage ≡ writing
      → l.run.close_ch ≡ true
      → Nearer 0 1 0 l (
          wrote on_error close_error unmarshal write_timeout l
            (sent on_error close_error (record l.run { send = rest }) o))
  unfolding wrote sent
  sent-Nearer l msg rest (ok a c) e w h =
      written-Nearer l _ l.write_stage h (rw (w, e) (omega arith))
  sent-Nearer l msg rest (err f c) e w h =
      let told =
        handle_error-Stays on_error close_error (wrap "send message" f)
          (record l.run { send = rest; conn = c }) in
      written-Nearer l _ l.write_stage (told.0 ∙ h) (rw (w, e, told.1) (omega arith))

  drained-Nearer :
      (l : Life) (b : Bool)
      → b ≡ true
      → Shut l.run
      → Nearer 0 1 0 l (
          wrote on_error close_error unmarshal write_timeout l
            (if b then (stopped, close_all on_error close_error l.run) else (running, l.run)))
  unfolding wrote
  drained-Nearer l true d h =
      written-Nearer l _ write_done (close_all-Matched on_error close_error l.run h.0).1
        (omega arith)
  drained-Nearer l false d h = ground arith

  sending-Nearer :
      (now : ℕ) (l : Life) (send : List OutgoingMessage)
      → l.run.send ≡ send
      → l.write_stage ≡ writing
      → Shut l.run
      → is_ready send l.run.send_closed ≡ true
      → Nearer 0 1 0 l (
          wrote on_error close_error unmarshal write_timeout l
            (sending on_error close_error write_timeout now l.run send))
  unfolding sending is_ready
  sending-Nearer now l [] e w h d = drained-Nearer l l.run.send_closed d h
  sending-Nearer now l (msg ∷ rest) e w h d = sent-Nearer l msg rest _ e w h.1

  choice-Nearer :
      (now : ℕ) (l : Life) (a pick b : Bool)
      → a ≡ true
      → is_ready l.run.send l.run.send_closed ≡ b
      → l.write_stage ≡ writing
      → Shut l.run
      → Nearer 0 1 0 l (
          wrote on_error close_error unmarshal write_timeout l (
            if a && (pick || not b)
            then (stopped, l.run)
            else sending on_error close_error write_timeout now l.run l.run.send))
  unfolding wrote
  choice-Nearer now l false pick b a d w h = ground arith
  choice-Nearer now l true true b a d w h = written-Nearer l l.run write_done h.1 (omega arith)
  choice-Nearer now l true false false a d w h = written-Nearer l l.run write_done h.1 (omega arith)
  choice-Nearer now l true false true a d w h = sending-Nearer now l l.run.send refl w h d

  write_at-Nearer :
      (pick : Bool) (now : ℕ) (l : Life) (s : WriteStage)
      → l.write_stage ≡ s
      → Shut l.run
      → Nearer 0 1 0 l (write_at on_error close_error unmarshal write_timeout pick now l s)
  unfolding write_at write_step
  write_at-Nearer pick now l writing e h = choice-Nearer now l l.run.close_ch pick _ h.1 refl e h
  write_at-Nearer pick now l write_done e h = record {
    kept_shut = h.1;
    fewer_reads = omega arith;
    fewer_writes = rw e (omega arith);
    stays_over = λ z. z;
  }

  finish_at-Nearer :
      (l : Life) (s : ReadStage) (w : WriteStage)
      → l.run.close_ch ≡ true
      → Nearer 0 0 0 l (finish_at on_error close_error unmarshal write_timeout l s w)
  unfolding finish_at
  finish_at-Nearer l read_done write_done h = record {
    kept_shut = h;
    fewer_reads = omega arith;
    fewer_writes = omega arith;
    stays_over = λ z. z;
  }
  finish_at-Nearer l read_done writing h = same-Nearer l h
  finish_at-Nearer l polling w h = same-Nearer l h
  finish_at-Nearer l decoding w h = same-Nearer l h
  finish_at-Nearer l (delivering msg) w h = same-Nearer l h

  enqueued-Nearer :
      (l : Life) (msg : OutgoingMessage) (b : Bool)
      → l.run.close_ch ≡ true
      → Nearer 0 0 1 l
          (if b then l else record l { run = record l.run { send = l.run.send ++ (msg ∷ []) } })
  enqueued-Nearer l msg true h = record {
    kept_shut = h;
    fewer_reads = omega arith;
    fewer_writes = omega arith;
    stays_over = λ z. z;
  }
  enqueued-Nearer l msg false h = record {
    kept_shut = h;
    fewer_reads = omega arith;
    fewer_writes = omega (arith, more l.write_stage l.run.send msg);
    stays_over = over_more l.write_stage l.run.send msg;
  }

  pub turn-Nearer :
      (t : Turn) (l : Life)
      → Shut l.run
      → Nearer
          (read_count t)
          (write_count t)
          (enqueue_count t)
          l
          (turn on_error close_error unmarshal write_timeout t l)
  unfolding turn
  turn-Nearer (read_turn pick) l h =
      read_at-Nearer on_error close_error unmarshal write_timeout pick l l.read_stage refl h
  turn-Nearer (write_turn pick now) l h = write_at-Nearer pick now l l.write_stage refl h
  turn-Nearer finish l h = finish_at-Nearer l l.read_stage l.write_stage h.1
  turn-Nearer end_sending l h = record {
    kept_shut = h.1;
    fewer_reads = omega arith;
    fewer_writes = omega arith;
    stays_over = λ z. z;
  }
  turn-Nearer (enqueue msg) l h = enqueued-Nearer l msg l.run.send_closed h.1
  turn-Nearer (arrive bytes) l h = record {
    kept_shut = h.1;
    fewer_reads = omega arith;
    fewer_writes = omega arith;
    stays_over = λ z. z;
  }

  Enough-over :
      (ts : List Turn) (l : Life)
      → IsSound l
      → l.run.close_ch ≡ true
      → read_left l.read_stage ≤ total read_count ts
      → Enough ts (write_left l.write_stage l.run.send)
      → let k = turns on_error close_error unmarshal write_timeout ts l in
        (k.read_stage ≡ read_done) × (k.write_stage ≡ write_done)
  unfolding turns
  Enough-over [] l i h r w = (
    no_reads l.read_stage r,
    no_writes l.write_stage l.run.send
        (elim w [ inl z ↦ omega (arith, z) | inr n ↦ omega (arith, n) ]),
  )
  Enough-over (t ∷ ts) l i h r w =
      let n = turn-Nearer t l (i.matched, h) in
      Enough-over ts _ (turn-IsSound on_error close_error unmarshal write_timeout t l i) n.kept_shut
        (omega (arith, r, n.fewer_reads)) (Enough-next t ts _ _ w n.fewer_writes n.stays_over)

  over-recv_closed :
      (l : Life)
      → (l.read_stage ≡ read_done) × (l.write_stage ≡ write_done)
      → (turn on_error close_error unmarshal write_timeout finish l).recv_closed ≡ true
  unfolding turn finish_at
  over-recv_closed l (r, w) = rw (r, w) refl

  -- From the start of runLoop on an open connection: after turns that closed closeCh, in every order
  -- of three turns of readLoop, and of one turn of writeLoop more than there are messages waiting or
  -- put into send meanwhile, both loops return, and runLoop closes recv at its next turn.
  pub turns-stops :
      (ts us : List Turn) (conn : Conn) (send : List OutgoingMessage)
      → conn.closed ≡ false
      → let k = turns on_error close_error unmarshal write_timeout ts (started conn send) in
        k.run.close_ch ≡ true
        → 3 ≤ total read_count us
        → suc (length k.run.send) + total enqueue_count us ≤ total write_count us
        → (turn on_error close_error unmarshal write_timeout finish
            (turns on_error close_error unmarshal write_timeout us k)).recv_closed
          ≡ true
  turns-stops ts us conn send o h r w =
      let k = turns on_error close_error unmarshal write_timeout ts (started conn send) in
      let i =
        turns-IsSound on_error close_error unmarshal write_timeout ts (started conn send)
          (started-IsSound conn send o) in
      over-recv_closed _ (
        Enough-over us k i h (omega (arith, r, at_most-read_left k.read_stage))
          (inr (omega (arith, w, at_most-write_left k.write_stage k.run.send))))
