-- ===== src/Client/Loops/Together.antt =====
-- runLoop of pkg/client/client.go: readLoop and writeLoop beside the application, in any order of
-- turns. A turn of readLoop is the part between two points where it may wait.
pub mod Rounds
pub mod Sound
pub mod Ends
pub mod Stopping
pub mod Counts
pub mod Stopped
pub mod Draining
pub mod Drained
use sprut.Client.Loops.{Run, OutgoingMessage, handle_error, close_all, read_failed, write_step}
use sprut.Protocol.ServerMessage
use sprut.Protocol.ServerMessage.{ServerMessage}
use sprut.Router.Message.{Message}
use sprut.Base.{
  ◌&&◌, ◌++◌, if◌then◌else◌, ℤ, ◌⊎◌, List, ℕ, Option, Bool, [], ◌∷◌, none, some, true, false, inl,
  inr,
}
use sprut.Io.{wrap, Outcome, Error, Loop, running, stopped, net_closed, ok, err}
use sprut.Io.Conn.{Conn, reading}

-- Where readLoop is: at its first select, in DecodeServerMessage, at its last select with a message,
-- or returned; and where writeLoop is.
pub data ReadStage : Type 0 where
  polling decoding read_done : ReadStage
  delivering : Message → ReadStage

pub data WriteStage : Type 0 where
  writing write_done : WriteStage

pub record Life : Type 0 where
  pub run : Run
  pub read_stage : ReadStage
  pub write_stage : WriteStage
  pub recv_closed : Bool

-- Both loops at their beginning, with what the application had put into send before.
abbrev pub started : Conn → List OutgoingMessage → Life
started conn send = record {
  run = record {
    conn = conn;
    close_ch = false;
    errors = [];
    recv = [];
    send = send;
    send_closed = false;
  };
  read_stage = polling;
  write_stage = writing;
  recv_closed = false;
}

-- The turns: of the two loops (the first argument says what is taken where two things are ready, the
-- second of writeLoop's is the clock), of runLoop behind Wait, of the application, of the network.
pub data Turn : Type 0 where
  read_turn : Bool → Turn
  write_turn : Bool → ℕ → Turn
  finish end_sending : Turn
  enqueue : OutgoingMessage → Turn
  arrive : List ℕ → Turn

module _ (on_error : Bool) (close_error : Option Error) (unmarshal : List ℕ → Error ⊎ Message)
    (write_timeout : ℤ) where
  -- readLoop returns, with the deferred closeAll.
  read_returned : Life → Run → Life
  read_returned l r = record l { run = close_all on_error close_error r; read_stage = read_done }

  parsed : Life → Run → Error ⊎ Message → Life
  parsed l r (inl e) = record l {
    run = handle_error on_error close_error (wrap "unmarshal message" e) r;
    read_stage = polling;
  }
  parsed l r (inr msg) = record l { run = r; read_stage = delivering msg }

  failed : Life → Loop × Run → Life
  failed l (loop, r) = record l { run = r; read_stage = read_done }

  decoded : Life → Outcome Conn ServerMessage → Life
  decoded l (ok m c) = parsed l (record l.run { conn = c }) (unmarshal m.body)
  decoded l (err e c) = failed l (read_failed on_error close_error e (record l.run { conn = c }))

  -- It reads what has arrived when it is its turn, and where that is no whole message the stream has
  -- ended. On a connection that was closed, what had come may still be read.
  decode : Bool → Life → Life
  decode pick l =
      if l.run.conn.closed && pick
      then failed l (read_failed on_error close_error net_closed l.run)
      else decoded l (reading ServerMessage.decode l.run.conn)

  poll : Life → Life
  poll l = if l.run.close_ch then read_returned l l.run else record l { read_stage = decoding }

  deliver : Bool → Message → Life → Life
  deliver pick msg l =
      if l.run.close_ch && pick
      then read_returned l l.run
      else record l { run = record l.run { recv = l.run.recv ++ (msg ∷ []) }; read_stage = polling }

  pub read_at : Bool → Life → ReadStage → Life
  read_at pick l polling = poll l
  read_at pick l decoding = decode pick l
  read_at pick l (delivering msg) = deliver pick msg l
  read_at pick l read_done = l

  pub wrote : Life → Loop × Run → Life
  wrote l (running, r) = record l { run = r }
  wrote l (stopped, r) = record l { run = r; write_stage = write_done }

  pub write_at : Bool → ℕ → Life → WriteStage → Life
  write_at pick now l writing =
      wrote l (write_step on_error close_error pick write_timeout now l.run)
  write_at pick now l write_done = l

  -- `wg.Wait(); close(recv)`
  pub finish_at : Life → ReadStage → WriteStage → Life
  finish_at l read_done write_done = record l { recv_closed = true }
  finish_at l r w = l

  -- A send on a closed channel would be the application's own panic.
  unfoldable pub turn : Turn → Life → Life
  unfolding read_at poll decode deliver write_at wrote finish_at read_returned parsed failed decoded
      read_failed
  turn (read_turn pick) l = read_at pick l l.read_stage
  turn (write_turn pick now) l = write_at pick now l l.write_stage
  turn finish l = finish_at l l.read_stage l.write_stage
  turn end_sending l = record l { run = record l.run { send_closed = true } }
  turn (enqueue msg) l =
      if l.run.send_closed
      then l
      else record l { run = record l.run { send = l.run.send ++ (msg ∷ []) } }
  turn (arrive bytes) l = record l {
    run = record l.run {
      conn = record l.run.conn {
        reader = record l.run.conn.reader { pending = l.run.conn.reader.pending ++ bytes };
      };
    };
  }

  unfoldable pub turns : List Turn → Life → Life
  turns [] l = l
  turns (t ∷ ts) l = turns ts (turn t l)
