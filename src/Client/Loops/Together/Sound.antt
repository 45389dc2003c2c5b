-- ===== src/Client/Loops/Together/Sound.antt =====
-- The invariant of runLoop of pkg/client/client.go under any order of turns.
use sprut.Base.{
  ◌∙◌, ◌&&◌, arith, refl, ℤ, ◌⊎◌, ℕ, List, ◌≡◌, Option, Bool, [], ◌∷◌, true, false, inl, inr,
  if◌then◌else◌,
}
use sprut.Client.Loops.Together.{
  started, WriteStage, Turn, turns, turn, finish_at, write_at, deliver, decode, poll, failed,
  read_at, read_returned, parsed, decoded, ReadStage, wrote, Life, read_done, write_done, polling,
  decoding, delivering, writing, read_turn, write_turn, finish, end_sending, enqueue, arrive,
}
use mathlib.Core.Path.{sym}
use sprut.Client.Loops.Together.Rounds.{
  reading_back-Same, write_step-Written, Same, read_failed-Shut, close_all-Matched,
  handle_error-Later, Later, Written, Matched,
}
use sprut.Io.{err, ok, wrap, net_closed, Outcome, stopped, running, Loop, Error}
use sprut.Router.Message.{Message}
use sprut.Client.Loops.{OutgoingMessage, read_failed, Run}
use sprut.Io.Conn.{reading, Conn}
use sprut.Protocol.ServerMessage
use sprut.Protocol.ServerMessage.{ServerMessage}

pub record IsSound (l : Life) : Type 0 where
  pub matched : Matched l.run
  pub read_shut : l.read_stage ≡ read_done → l.run.close_ch ≡ true
  pub write_shut : l.write_stage ≡ write_done → l.run.close_ch ≡ true
  pub ended : l.recv_closed ≡ true → (l.read_stage ≡ read_done) × (l.write_stage ≡ write_done)

pub started-IsSound :
    (conn : Conn) (send : List OutgoingMessage) → conn.closed ≡ false → IsSound (started conn send)
started-IsSound conn send o = record {
  matched = sym o;
  read_shut = λ k. ground arith;
  write_shut = λ k. ground arith;
  ended = λ k. ground arith;
}

module _ (on_error : Bool) (close_error : Option Error) (unmarshal : List ℕ → Error ⊎ Message)
    (write_timeout : ℤ) where
  -- A turn of readLoop, which has not returned before it.
  reading-IsSound :
      (l : Life) (r : Run) (s : ReadStage)
      → IsSound l
      → ¬ (l.read_stage ≡ read_done)
      → Later l.run r
      → (s ≡ read_done → r.close_ch ≡ true)
      → IsSound (record l { run = r; read_stage = s })
  reading-IsSound l r s i going (m, keep) shut = record {
    matched = m;
    read_shut = shut;
    write_shut = λ w. keep (i.write_shut w);
    ended = λ h. absurd (going (i.ended h).0);
  }

  writing-IsSound :
      (l : Life) (p : Loop × Run)
      → IsSound l
      → ¬ (l.write_stage ≡ write_done)
      → Written l.run p
      → IsSound (wrote on_error close_error unmarshal write_timeout l p)
  unfolding wrote
  writing-IsSound l (running, r) i going ((m, keep), s) = record {
    matched = m;
    read_shut = λ w. keep (i.read_shut w);
    write_shut = λ w. absurd (going w);
    ended = i.ended;
  }
  writing-IsSound l (stopped, r) i going ((m, keep), s) = record {
    matched = m;
    read_shut = λ w. keep (i.read_shut w);
    write_shut = λ w. s refl;
    ended = λ h. absurd (going (i.ended h).1);
  }

  read_failed-IsSound :
      (l : Life) (e : Error) (r : Run)
      → IsSound l
      → ¬ (l.read_stage ≡ read_done)
      → Matched r
      → IsSound (
          failed on_error close_error unmarshal write_timeout l
            (read_failed on_error close_error e r))
  unfolding failed
  read_failed-IsSound l e r i going m =
      let done = read_failed-Shut on_error close_error e r m in
      reading-IsSound l _ read_done i going (done.0, λ k. done.1) (λ k. done.1)

  parsed-IsSound :
      (l : Life) (r : Run) (o : Error ⊎ Message)
      → IsSound l
      → ¬ (l.read_stage ≡ read_done)
      → Later l.run r
      → IsSound (parsed on_error close_error unmarshal write_timeout l r o)
  unfolding parsed
  parsed-IsSound l r (inl e) i going (m, keep) =
      let told = handle_error-Later on_error close_error (wrap "unmarshal message" e) r m in
      reading-IsSound l _ polling i going (told.0, λ k. told.1 (keep k)) (λ k. ground arith)
  parsed-IsSound l r (inr msg) i going w =
      reading-IsSound l r (delivering msg) i going w (λ k. ground arith)

  decoded-IsSound :
      (l : Life) (o : Outcome Conn ServerMessage)
      → IsSound l
      → ¬ (l.read_stage ≡ read_done)
      → Same l.run.conn.closed o
      → IsSound (decoded on_error close_error unmarshal write_timeout l o)
  unfolding decoded
  decoded-IsSound l (ok m c) i going h =
      parsed-IsSound l _ (unmarshal m.body) i going (i.matched ∙ sym h, λ k. k)
  decoded-IsSound l (err e c) i going h = read_failed-IsSound l e _ i going (i.matched ∙ sym h)

  decode-IsSound :
      (l : Life) (b : Bool)
      → IsSound l
      → ¬ (l.read_stage ≡ read_done)
      → IsSound (
          if b
          then failed on_error close_error unmarshal write_timeout l
              (read_failed on_error close_error net_closed l.run)
          else decoded on_error close_error unmarshal write_timeout l
              (reading ServerMessage.decode l.run.conn))
  unfolding reading
  decode-IsSound l true i going = read_failed-IsSound l net_closed l.run i going i.matched
  decode-IsSound l false i going =
      decoded-IsSound l _ i going
        (reading_back-Same l.run.conn (ServerMessage.decode l.run.conn.reader))

  leave-IsSound :
      (l m : Life) (b : Bool)
      → IsSound l
      → ¬ (l.read_stage ≡ read_done)
      → IsSound m
      → IsSound
          (if b then read_returned on_error close_error unmarshal write_timeout l l.run else m)
  unfolding read_returned
  leave-IsSound l m true i going k =
      let done = close_all-Matched on_error close_error l.run i.matched in
      reading-IsSound l _ read_done i going (done.0, λ k. done.1) (λ k. done.1)
  leave-IsSound l m false i going k = k

  read_at-IsSound :
      (pick : Bool) (l : Life) (s : ReadStage)
      → l.read_stage ≡ s
      → IsSound l
      → IsSound (read_at on_error close_error unmarshal write_timeout pick l s)
  unfolding read_at poll decode deliver
  read_at-IsSound pick l polling e i =
      leave-IsSound l _ l.run.close_ch i (λ k. ground arith)
        (reading-IsSound l l.run decoding i (λ k. ground arith) (i.matched, λ k. k)
          (λ k. ground arith))
  read_at-IsSound pick l decoding e i =
      decode-IsSound l (l.run.conn.closed && pick) i (λ k. ground arith)
  read_at-IsSound pick l (delivering msg) e i =
      leave-IsSound l _ (l.run.close_ch && pick) i (λ k. ground arith)
        (reading-IsSound l _ polling i (λ k. ground arith) (i.matched, λ k. k) (λ k. ground arith))
  read_at-IsSound pick l read_done e i = i

  write_at-IsSound :
      (pick : Bool) (now : ℕ) (l : Life) (s : WriteStage)
      → l.write_stage ≡ s
      → IsSound l
      → IsSound (write_at on_error close_error unmarshal write_timeout pick now l s)
  unfolding write_at
  write_at-IsSound pick now l writing e i =
      writing-IsSound l _ i (λ k. ground arith)
        (write_step-Written on_error close_error pick write_timeout now l.run i.matched)
  write_at-IsSound pick now l write_done e i = i

  finish_at-IsSound :
      (l : Life) (s : ReadStage) (w : WriteStage)
      → l.read_stage ≡ s
      → l.write_stage ≡ w
      → IsSound l
      → IsSound (finish_at on_error close_error unmarshal write_timeout l s w)
  unfolding finish_at
  finish_at-IsSound l read_done write_done e f i = record {
    matched = i.matched;
    read_shut = i.read_shut;
    write_shut = i.write_shut;
    ended = λ k. (e, f);
  }
  finish_at-IsSound l polling w e f i = i
  finish_at-IsSound l decoding w e f i = i
  finish_at-IsSound l (delivering msg) w e f i = i
  finish_at-IsSound l read_done writing e f i = i

  enqueue-IsSound : (l m : Life) (b : Bool) → IsSound l → IsSound m → IsSound (if b then l else m)
  enqueue-IsSound l m true i j = i
  enqueue-IsSound l m false i j = j

  pub turn-IsSound :
      (t : Turn) (l : Life)
      → IsSound l
      → IsSound (turn on_error close_error unmarshal write_timeout t l)
  unfolding turn
  turn-IsSound (read_turn pick) l i = read_at-IsSound pick l l.read_stage refl i
  turn-IsSound (write_turn pick now) l i = write_at-IsSound pick now l l.write_stage refl i
  turn-IsSound finish l i = finish_at-IsSound l l.read_stage l.write_stage refl refl i
  turn-IsSound end_sending l i = record {
    matched = i.matched;
    read_shut = i.read_shut;
    write_shut = i.write_shut;
    ended = i.ended;
  }
  turn-IsSound (enqueue msg) l i = enqueue-IsSound l _ l.run.send_closed i (record {
    matched = i.matched;
    read_shut = i.read_shut;
    write_shut = i.write_shut;
    ended = i.ended;
  })
  turn-IsSound (arrive bytes) l i = record {
    matched = i.matched;
    read_shut = i.read_shut;
    write_shut = i.write_shut;
    ended = i.ended;
  }

  pub turns-IsSound :
      (ts : List Turn) (l : Life)
      → IsSound l
      → IsSound (turns on_error close_error unmarshal write_timeout ts l)
  unfolding turns
  turns-IsSound [] l i = i
  turns-IsSound (t ∷ ts) l i = turns-IsSound ts _ (turn-IsSound t l i)
