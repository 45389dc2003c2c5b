-- ===== src/Client/Loops/Together/Ends.antt =====
-- The end of runLoop of pkg/client/client.go: the state once recv is closed.
use sprut.Client.Loops.Together.Sound.{started-IsSound, turns-IsSound}
use sprut.Base.{
  ◌∙◌, sym, refl, ℤ, ◌⊎◌, Option, ℕ, ◌≡◌, List, Bool, [], ◌∷◌, true, false, if◌then◌else◌,
}
use sprut.Client.Loops.Together.{
  started, turns, write_at, read_at, turn, finish_at, Turn, Life, read_done, write_done, read_turn,
  write_turn, finish, end_sending, enqueue, arrive,
}
use sprut.Client.Loops.{OutgoingMessage}
use sprut.Io.{Error}
use sprut.Router.Message.{Message}
use sprut.Io.Conn.{Conn}

-- Nothing moves any more.
record IsQuiet (l m : Life) : Type 0 where
  still_closed : m.recv_closed ≡ true
  read_over : m.read_stage ≡ read_done
  write_over : m.write_stage ≡ write_done
  same_recv : m.run.recv ≡ l.run.recv

module _ (on_error : Bool) (close_error : Option Error) (unmarshal : List ℕ → Error ⊎ Message)
    (write_timeout : ℤ) where
  enqueue-IsQuiet :
      (k l m : Life) (b : Bool) → IsQuiet k l → IsQuiet k m → IsQuiet k (if b then l else m)
  enqueue-IsQuiet k l m true p q = p
  enqueue-IsQuiet k l m false p q = q

  turn-IsQuiet :
      (t : Turn) (k l : Life)
      → IsQuiet k l
      → IsQuiet k (turn on_error close_error unmarshal write_timeout t l)
  unfolding turn read_at write_at finish_at
  turn-IsQuiet (read_turn pick) k l q = rw q.read_over (record {
    still_closed = q.still_closed;
    read_over = refl;
    write_over = q.write_over;
    same_recv = q.same_recv;
  })
  turn-IsQuiet (write_turn pick now) k l q = rw q.write_over (record {
    still_closed = q.still_closed;
    read_over = q.read_over;
    write_over = refl;
    same_recv = q.same_recv;
  })
  turn-IsQuiet finish k l q =
      rw (q.write_over, q.read_over)
        (record {
          still_closed = refl;
          read_over = refl;
          write_over = refl;
          same_recv = q.same_recv;
        })
  turn-IsQuiet end_sending k l q = record {
    still_closed = q.still_closed;
    read_over = q.read_over;
    write_over = q.write_over;
    same_recv = q.same_recv;
  }
  turn-IsQuiet (enqueue msg) k l q = enqueue-IsQuiet k l _ l.run.send_closed q (record {
    still_closed = q.still_closed;
    read_over = q.read_over;
    write_over = q.write_over;
    same_recv = q.same_recv;
  })
  turn-IsQuiet (arrive bytes) k l q = record {
    still_closed = q.still_closed;
    read_over = q.read_over;
    write_over = q.write_over;
    same_recv = q.same_recv;
  }

  turns-IsQuiet :
      (ts : List Turn) (k l : Life)
      → IsQuiet k l
      → IsQuiet k (turns on_error close_error unmarshal write_timeout ts l)
  unfolding turns
  turns-IsQuiet [] k l q = q
  turns-IsQuiet (t ∷ ts) k l q = turns-IsQuiet ts k _ (turn-IsQuiet t k l q)

  -- From the start of runLoop on an open connection, in every order of turns: closeCh is closed
  -- exactly where the connection is; and once recv is closed, both are, and no order of further
  -- turns delivers anything to recv.
  pub turns-recv_closed :
      (ts us : List Turn) (conn : Conn) (send : List OutgoingMessage)
      → conn.closed ≡ false
      → let k = turns on_error close_error unmarshal write_timeout ts (started conn send) in
        let m = turns on_error close_error unmarshal write_timeout us k in
        (k.run.close_ch ≡ k.run.conn.closed)
        × (k.recv_closed ≡ true
            → (k.run.conn.closed ≡ true) × (m.recv_closed ≡ true) × (m.run.recv ≡ k.run.recv))
  turns-recv_closed ts us conn send o =
      let k = turns on_error close_error unmarshal write_timeout ts (started conn send) in
      let s =
        turns-IsSound on_error close_error unmarshal write_timeout ts (started conn send)
          (started-IsSound conn send o) in
      (
        s.matched,
        λ h.
            let over = s.ended h in
            let q = turns-IsQuiet us k k (record {
              still_closed = h;
              read_over = over.0;
              write_over = over.1;
              same_recv = refl;
            }) in
            (sym s.matched ∙ s.read_shut over.0, q.still_closed, q.same_recv),
      )
