-- ===== src/Client/Loops.antt =====
-- readLoop, writeLoop, sendMessage and the closing of a connection in pkg/client/client.go.
-- proto.Unmarshal is a parameter.
pub mod Reading
pub mod Writing
pub mod Beginning
pub mod Kept
pub mod Receiving
pub mod Together
use sprut.Protocol.ServerMessage
use sprut.Protocol.ServerMessage.{ServerMessage}
use sprut.Protocol.ClientMessage
use sprut.Protocol.ClientMessage.{ClientMessage}
use sprut.Router.Message.{Message}
use sprut.Base.{
  zero, negsuc, ◌+◌, not, inr, [], none, suc, ◌||◌, true, pos, inl, ◌++◌, ◌&&◌, ◌∷◌, ◌⊎◌, some,
  if◌then◌else◌, Option, ℕ, Bool, ℤ, List,
}
use sprut.Io.Conn.{set_deadline, writing, reading, Conn}
use sprut.Io.{
  wrapping, is_net_closed, running, err, ok, wrap, ◌>>◌, is_eof, stopped, Proc, Outcome, Loop,
  Error,
}

pub record OutgoingMessage : Type 0 where
  pub to : List ℕ
  pub msg_id : List ℕ
  pub payload : List ℕ

-- What the two loops share: the connection, closeCh, the errors that onError was given, the messages
-- delivered to recv, those waiting in send and whether send is closed.
pub record Run : Type 0 where
  pub conn : Conn
  pub close_ch : Bool
  pub errors : List Error
  pub recv : List Message
  pub send : List OutgoingMessage
  pub send_closed : Bool

-- sendMessage. A timeout that is not positive sets no deadline.
timeout_deadline : ℤ → ℕ → Proc Conn (Unit {0})
timeout_deadline (pos zero) now c = ok tt c
timeout_deadline (pos (suc n)) now c =
    wrapping "set write deadline" (set_deadline (some (now + suc n))) c
timeout_deadline (negsuc n) now c = ok tt c

unfoldable pub send_message : ℤ → ℕ → OutgoingMessage → Proc Conn (Unit {0})
unfolding timeout_deadline
send_message write_timeout now msg = do
  timeout_deadline write_timeout now
  writing
      (ClientMessage.encode (record { to = msg.to; msg_id = msg.msg_id; payload = msg.payload }))

-- A receive from send is ready where it has a message or is closed.
is_ready : List OutgoingMessage → Bool → Bool
is_ready [] send_closed = send_closed
is_ready (msg ∷ rest) send_closed = true

-- `on_error` says whether the configuration has a handler, `close_error` is the result of the
-- connection's Close.
module _ (on_error : Bool) (close_error : Option Error) where
  unfoldable pub handle_error : Error → Run → Run
  handle_error e r = if on_error then record r { errors = r.errors ++ (e ∷ []) } else r

  close_reported : Option Error → Run → Run
  close_reported none r = r
  close_reported (some e) r = handle_error (wrap "close connection" e) r

  -- closeAll, by closeOnce.
  unfoldable pub close_all : Run → Run
  unfolding close_reported
  close_all r =
      if r.close_ch
      then r
      else close_reported close_error
          (record r { close_ch = true; conn = record r.conn { closed = true } })

  -- The deferred closeAll of readLoop.
  returned : Run → Loop × Run
  returned r = (stopped, close_all r)

  delivered : Bool → Error ⊎ Message → Run → Loop × Run
  delivered pick (inl e) r = (running, handle_error (wrap "unmarshal message" e) r)
  delivered pick (inr msg) r =
      if r.close_ch && pick then returned r else (running, record r { recv = r.recv ++ (msg ∷ []) })

  -- What the other loop has done while this one waited.
  pub meanwhile : Bool → Run → Run
  meanwhile closing r = if closing then close_all r else r

  pub read_failed : Error → Run → Loop × Run
  read_failed e r =
      if is_eof e || is_net_closed e
      then returned r
      else if r.close_ch
      then returned r
      else returned (handle_error (wrap "decode server message" e) r)

  module _ (unmarshal : List ℕ → Error ⊎ Message) where
    decoded : Bool → Bool → Run → Outcome Conn ServerMessage → Loop × Run
    decoded pick closing r (ok m c) =
        delivered pick (unmarshal m.body) (meanwhile closing (record r { conn = c }))
    decoded pick closing r (err e c) = read_failed e (meanwhile closing (record r { conn = c }))

    -- One round of readLoop: `closing` says whether writeLoop closes the connection while this one
    -- reads, `pick` what the last select takes where both of its cases are ready.
    unfoldable pub read_step : Bool → Bool → Run → Loop × Run
    unfolding returned delivered meanwhile read_failed decoded
    read_step pick closing r =
        if r.close_ch
        then returned r
        else decoded pick closing r (reading ServerMessage.decode r.conn)

  sent : Run → Outcome Conn (Unit {0}) → Loop × Run
  sent r (ok a c) = (running, record r { conn = c })
  sent r (err e c) = (running, handle_error (wrap "send message" e) (record r { conn = c }))

  -- The case of send, which waits where it is empty and open.
  sending : ℤ → ℕ → Run → List OutgoingMessage → Loop × Run
  sending write_timeout now r [] = if r.send_closed then (stopped, close_all r) else (running, r)
  sending write_timeout now r (msg ∷ rest) =
      sent (record r { send = rest }) (send_message write_timeout now msg r.conn)

  -- One round of writeLoop; `pick` chooses where both cases are ready.
  unfoldable pub write_step : Bool → ℤ → ℕ → Run → Loop × Run
  unfolding sent sending is_ready
  write_step pick write_timeout now r =
      if r.close_ch && (pick || not (is_ready r.send r.send_closed))
      then (stopped, r)
      else sending write_timeout now r r.send
