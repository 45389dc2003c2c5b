-- ===== src/Client/Loops/Together/Stopping.antt =====
-- readLoop of pkg/client/client.go where closeCh is closed: the turns that it still takes.
use sprut.Protocol.ServerMessage
use sprut.Base.{
  sym, ◌&&◌, refl, inr, inl, ◌+◌, ℤ, ◌-◌, ◌≤◌, ◌⊎◌, ◌∙◌, ◌≡◌, arith, length, ℕ, Option, List, Bool,
  [], ◌∷◌, true, false, suc, if◌then◌else◌,
}
use sprut.Client.Loops.Together.{
  deliver, decode, poll, decoded, read_returned, parsed, read_at, failed, Life, Turn, WriteStage,
  ReadStage, read_done, write_done, polling, decoding, delivering, writing, read_turn, write_turn,
  enqueue,
}
use sprut.Client.Loops.{
  close_reported, Run, returned, read_failed, close_all, handle_error, OutgoingMessage,
}
use sprut.Io.{err, ok, net_closed, Outcome, wrap, Error}
use sprut.Router.Message.{Message}
use sprut.Io.Conn.{Conn, reading}
use sprut.Client.Loops.Together.Rounds.{
  Same, reading_back-Same, read_failed-Shut, close_all-Matched, Shut,
}
use sprut.Protocol.ServerMessage.{ServerMessage}

-- How many turns each loop still takes where closeCh is closed.
abbrev pub read_left : ReadStage → ℕ
read_left polling = 1
read_left decoding = 3
read_left (delivering msg) = 2
read_left read_done = 0

abbrev pub write_left : WriteStage → List OutgoingMessage → ℕ
write_left writing send = suc (length send)
write_left write_done send = 0

-- What a turn counts for: of readLoop, of writeLoop, of the application putting into send.
abbrev pub read_count : Turn → ℕ
read_count (read_turn pick) = 1
read_count t = 0

abbrev pub write_count : Turn → ℕ
write_count (write_turn pick now) = 1
write_count t = 0

abbrev pub enqueue_count : Turn → ℕ
enqueue_count (enqueue msg) = 1
enqueue_count t = 0

abbrev pub total : (Turn → ℕ) → List Turn → ℕ
total f [] = 0
total f (t ∷ ts) = f t + total f ts

module _ (on_error : Bool) (close_error : Option Error) where
  -- Both the channel closed and the messages waiting are as they were.
  abbrev Stays : Run → Run → Type 0
  Stays r q = (q.close_ch ≡ r.close_ch) × (q.send ≡ r.send)

  pub handle_error-Stays : (e : Error) (r : Run) → Stays r (handle_error on_error close_error e r)
  unfolding handle_error
  handle_error-Stays e r = ground arith

  close_all-send : (r : Run) → (close_all on_error close_error r).send ≡ r.send
  unfolding close_all close_reported handle_error
  close_all-send r = ground arith

  failed-send :
      (e : Error) (r : Run) (b c : Bool)
      → (if b
          then returned on_error close_error r
          else if c
          then returned on_error close_error r
          else returned on_error close_error
              (handle_error on_error close_error (wrap "decode server message" e) r)).1.send
        ≡ r.send
  unfolding returned
  failed-send e r true c = close_all-send r
  failed-send e r false true = close_all-send r
  failed-send e r false false = close_all-send _ ∙ (handle_error-Stays _ r).1

  read_failed-send : (e : Error) (r : Run) → (read_failed on_error close_error e r).1.send ≡ r.send
  unfolding read_failed
  read_failed-send e r = failed-send e r _ _

-- What a turn leaves to each loop, where closeCh is closed.
pub record Nearer (r w e : ℕ) (l m : Life) : Type 0 where
  pub kept_shut : m.run.close_ch ≡ true
  pub fewer_reads : read_left m.read_stage ≤ read_left l.read_stage - r
  pub fewer_writes :
      write_left m.write_stage m.run.send ≤ (write_left l.write_stage l.run.send + e) - w
  pub stays_over : write_left l.write_stage l.run.send ≡ 0 → write_left m.write_stage m.run.send ≡ 0

moved-Nearer :
    (l : Life) (r : Run) (s : ReadStage)
    → r.close_ch ≡ true
    → r.send ≡ l.run.send
    → read_left s ≤ read_left l.read_stage - 1
    → Nearer 1 0 0 l (record l { run = r; read_stage = s })
moved-Nearer l r s h e d = record {
  kept_shut = h;
  fewer_reads = d;
  fewer_writes = rw e (omega arith);
  stays_over = λ z. rw e z;
}

pub written-Nearer :
    (l : Life) (r : Run) (s : WriteStage)
    → r.close_ch ≡ true
    → write_left s r.send ≤ write_left l.write_stage l.run.send - 1
    → Nearer 0 1 0 l (record l { run = r; write_stage = s })
written-Nearer l r s h d = record {
  kept_shut = h;
  fewer_reads = omega arith;
  fewer_writes = omega (arith, d);
  stays_over = λ z. omega (arith, d);
}

module _ (on_error : Bool) (close_error : Option Error) (unmarshal : List ℕ → Error ⊎ Message)
    (write_timeout : ℤ) where
  read_failed-Nearer :
      (l : Life) (e : Error) (r : Run)
      → Shut r
      → r.send ≡ l.run.send
      → Nearer 1 0 0 l (
          failed on_error close_error unmarshal write_timeout l
            (read_failed on_error close_error e r))
  unfolding failed
  read_failed-Nearer l e r (m, h) s =
      moved-Nearer l _ read_done (read_failed-Shut on_error close_error e r m).1
        (read_failed-send on_error close_error e r ∙ s) (omega arith)

  parsed-Nearer :
      (l : Life) (r : Run) (o : Error ⊎ Message)
      → r.close_ch ≡ true
      → r.send ≡ l.run.send
      → l.read_stage ≡ decoding
      → Nearer 1 0 0 l (parsed on_error close_error unmarshal write_timeout l r o)
  unfolding parsed
  parsed-Nearer l r (inl e) h s d =
      let told = handle_error-Stays on_error close_error (wrap "unmarshal message" e) r in
      moved-Nearer l _ polling (told.0 ∙ h) (told.1 ∙ s) (rw d (omega arith))
  parsed-Nearer l r (inr msg) h s d = moved-Nearer l r (delivering msg) h s (rw d (omega arith))

  decoded-Nearer :
      (l : Life) (o : Outcome Conn ServerMessage)
      → Shut l.run
      → Same l.run.conn.closed o
      → l.read_stage ≡ decoding
      → Nearer 1 0 0 l (decoded on_error close_error unmarshal write_timeout l o)
  unfolding decoded
  decoded-Nearer l (ok m c) h e d = parsed-Nearer l _ (unmarshal m.body) h.1 refl d
  decoded-Nearer l (err f c) h e d = read_failed-Nearer l f _ (h.0 ∙ sym e, h.1) refl

  decode-Nearer :
      (l : Life) (b : Bool)
      → Shut l.run
      → l.read_stage ≡ decoding
      → Nearer 1 0 0 l (
          if b
          then failed on_error close_error unmarshal write_timeout l
              (read_failed on_error close_error net_closed l.run)
          else decoded on_error close_error unmarshal write_timeout l
              (reading ServerMessage.decode l.run.conn))
  unfolding reading
  decode-Nearer l true h d = read_failed-Nearer l net_closed l.run h refl
  decode-Nearer l false h d =
      decoded-Nearer l _ h (reading_back-Same l.run.conn (ServerMessage.decode l.run.conn.reader)) d

  leave-Nearer :
      (l m : Life) (b : Bool)
      → Shut l.run
      → (b ≡ false → Nearer 1 0 0 l m)
      → Nearer 1 0 0 l
          (if b then read_returned on_error close_error unmarshal write_timeout l l.run else m)
  unfolding read_returned
  leave-Nearer l m true h k =
      moved-Nearer l _ read_done (close_all-Matched on_error close_error l.run h.0).1
        (close_all-send on_error close_error l.run) (omega arith)
  leave-Nearer l m false h k = k refl

  pub read_at-Nearer :
      (pick : Bool) (l : Life) (s : ReadStage)
      → l.read_stage ≡ s
      → Shut l.run
      → Nearer 1 0 0 l (read_at on_error close_error unmarshal write_timeout pick l s)
  unfolding read_at poll decode deliver
  read_at-Nearer pick l polling e h = leave-Nearer l _ l.run.close_ch h (λ k. ground arith)
  read_at-Nearer pick l decoding e h = decode-Nearer l (l.run.conn.closed && pick) h e
  read_at-Nearer pick l (delivering msg) e h =
      leave-Nearer l _ (l.run.close_ch && pick) h
        (λ k. moved-Nearer l _ polling h.1 refl (rw e (omega arith)))
  read_at-Nearer pick l read_done e h = record {
    kept_shut = h.1;
    fewer_reads = rw e (omega arith);
    fewer_writes = omega arith;
    stays_over = λ z. z;
  }
