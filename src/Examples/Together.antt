-- ===== src/Examples/Together.antt =====
-- runLoop at a concrete schedule.
use sprut.Client.Loops.Together.Drained.{turns-drained}
use sprut.Testsprut.TestClient.{send_test_message, close_client}
use sprut.Protocol.ServerMessage
use sprut.Protocol.ClientMessage
use sprut.Client.Loops.{write_step, send_message, handle_error, close_all}
use sprut.Examples.Local.{fresh_run, two_outgoing, plain_unmarshal}
use sprut.Client.Loops.Together.{
  Turn, Life, started, turn, turns, read_turn, write_turn, finish, end_sending,
}
use sprut.Client.Loops.Together.Ends.{turns-recv_closed}
use sprut.Client.Loops.Together.Stopped.{turns-stops}
use sprut.Base.{codes, replicate, arith, refl, ◌++◌, ◌≡◌, [], ◌∷◌, none, true, false, pos, List}
use sprut.Io.Conn.{set_deadline, reading, Conn}
use sprut.Bytes.{be, put_be}
use sprut.Io.{write, read_full}

-- A message is read and delivered and one is sent; then the application closes send.
abbrev busy : List Turn
busy =
    read_turn false
    ∷ read_turn false
    ∷ write_turn false 100
    ∷ read_turn false
    ∷ end_sending
    ∷ write_turn false 101
    ∷ write_turn false 102
    ∷ []

abbrev quiet : List Turn
quiet =
    read_turn true
    ∷ write_turn true 103
    ∷ read_turn false
    ∷ finish
    ∷ read_turn true
    ∷ read_turn true
    ∷ finish
    ∷ []

abbrev ran : List Turn → Life → Life
ran = turns true none plain_unmarshal (pos 30)

abbrev roomy : Conn
roomy = record fresh_run.conn { writer = record { output = []; room = 1000 } }

turns-recv_closed_example :
    let k = ran (busy ++ quiet) (started roomy two_outgoing) in
    let m = ran quiet k in
    (k.run.close_ch ≡ k.run.conn.closed)
    × (k.recv_closed ≡ true
        → (k.run.conn.closed ≡ true) × (m.recv_closed ≡ true) × (m.run.recv ≡ k.run.recv))
turns-recv_closed_example =
    turns-recv_closed true none plain_unmarshal (pos 30) (busy ++ quiet) quiet roomy two_outgoing
      refl

turns-stops_example :
    (turn true none plain_unmarshal
      (pos 30)
      finish
      (ran quiet (ran busy (started roomy two_outgoing)))).recv_closed
    ≡ true
unfolding turns turn write_step send_message handle_error close_all ServerMessage.decode reading
    sprut.Io.Conn.writing put_be be ClientMessage.encode set_deadline read_full write
turns-stops_example =
    turns-stops true none plain_unmarshal (pos 30) busy quiet roomy two_outgoing refl refl
      (omega arith) (omega arith)

-- A test client sends a message and closes its channel.
abbrev hurried : List Turn
hurried =
    read_turn false
    ∷ send_test_message (replicate 64 b'b') (codes "m3") (codes "three")
    ∷ close_client
    ∷ []

turns-drained_example :
    let m =
      ran
        (write_turn false 100
          ∷ read_turn false
          ∷ write_turn false 101
          ∷ write_turn false 102
          ∷ write_turn false 103
          ∷ [])
        (ran hurried (started roomy two_outgoing)) in
    (m.run.close_ch ≡ true) × (m.run.conn.closed ≡ true)
unfolding turns turn
turns-drained_example =
    turns-drained true none plain_unmarshal (pos 30) hurried
      (write_turn false 100
        ∷ read_turn false
        ∷ write_turn false 101
        ∷ write_turn false 102
        ∷ write_turn false 103
        ∷ [])
      roomy two_outgoing refl refl (omega arith)
