-- ===== src/Programs/EchoBot.antt =====
-- examples/echo-bot/main.go, behind its start. fmt.Printf's output is kept, log is not.
pub mod Answers
use sprut.Programs.{add_one, print_int64}
use sprut.Base.{
  length, codes, ltb, ◌++◌, Bool, take, ℕ, List, [], ◌∷◌, none, some, true, false, inl, inr, zero,
  suc, if◌then◌else◌,
}
use sprut.Client.Loops.{OutgoingMessage}
use sprut.Io.{return, ◌>>=◌, panic, fail_if, ◌>>◌, ok, err, Proc}
use sprut.Router.Message.{Message}

-- The counter, what the bot has put into send, whether main has closed it, and what it has printed.
pub record Bot : Type 0 where
  pub count : ℕ
  pub sent : List OutgoingMessage
  pub send_closed : Bool
  pub printed : List (List ℕ)

unfoldable pub print : List ℕ → Proc Bot (Unit {0})
print line b = ok tt (record b { printed = b.printed ++ (line ∷ []) })

-- `msgCounter.Add(1)`
unfoldable pub next_id : Proc Bot ℕ
next_id b = ok (add_one b.count) (record b { count = add_one b.count })

unfoldable pub put : OutgoingMessage → Proc Bot (Unit {0})
put msg b =
    if b.send_closed
    then err (panic "send on closed channel") b
    else ok tt (record b { sent = b.sent ++ (msg ∷ []) })

-- `msg.From[:16]+"..."`, which panics where the name is shorter.
abbrev pub name : Message → List ℕ
name msg = take 16 msg.from ++ codes "..."

-- The two lines that are printed of one message.
unfoldable pub received_line : Message → List ℕ
received_line msg = codes "[RECV] From " ++ name msg ++ codes ": " ++ msg.payload ++ codes "\n"

unfoldable pub sent_line : Message → List ℕ → List ℕ
sent_line msg reply = codes "[SENT] To " ++ name msg ++ codes ": " ++ reply ++ codes "\n"

-- One message of recv.
unfoldable pub answer : Message → Proc Bot (Unit {0})
unfolding print next_id put
answer msg = do
  fail_if (ltb (length msg.from) 16) (panic "slice bounds out of range")
  print (received_line msg)
  let reply = codes "Echo: " ++ msg.payload
  n ← next_id
  put (record { to = msg.from; msg_id = codes "echo-" ++ print_int64 n; payload = reply })
  print (sent_line msg reply)

-- `for msg := range recv`
unfoldable pub answer_all : List Message → Proc Bot (Unit {0})
answer_all [] = return tt
answer_all (msg ∷ msgs) = do answer msg; answer_all msgs

-- `close(send)` at the end of main.
unfoldable pub shut_down : Bot → Bot
shut_down b = record b { send_closed = true }
