-- ===== src/Delivery/Echo.antt =====
-- A conversation with examples/echo-bot/main.go: messages on their way to the bot, its answers, and
-- the answers on their way back.
use sprut.Delivery.{Setting, journey, queued, received}
use sprut.Delivery.InOrder.{IsSender, IsIdle, IsPosted, DeliversInOrder, journey-delivers}
use sprut.Programs.EchoBot.{Bot, answer_all}
use sprut.Programs.EchoBot.Answers.{replies, answer_all-replies_all}
use sprut.Client.Loops.{OutgoingMessage, Run}
use sprut.Client.Loops.Reading.{messages}
use sprut.Router.Serving.Publishes.{Posting}
use sprut.Router.Peer.{Peer}
use sprut.Base.{
  Bool, sym, arith, ◌∙◌, ◌^◌, ◌<◌, drop, ◌+◌, ◌≤◌, ◌++◌, codes, ap, All, refl, ℕ, ◌≡◌, [], ◌∷◌,
  false, suc, List, length, map,
}
use sprut.Io.{err, ok, Outcome}
use sprut.Router.Message.{Message}

-- The bot's client sends what the bot has put into send; the channel is open until the bot closes it.
abbrev taking : Run → Outcome Bot (Unit {0}) → Run
taking d (ok a bot) = record d { send = bot.sent; send_closed = bot.send_closed }
taking d (err e bot) = record d { send = bot.sent; send_closed = bot.send_closed }

-- One direction of the conversation: the server's buffer, the sender's client, the recipient's peer
-- and client. What a client sends and what it receives are in different directions, so that each client
-- has a Run in both: the two loops of a client share nothing but what closes them, and as long as
-- their channels are open none of them closes anything.
pub record Way : Type 0 where
  pub buf : List ℕ
  pub from_run : Run
  pub peer : Peer
  pub to_run : Run

first_payload : List OutgoingMessage → List ℕ
first_payload [] = []
first_payload (msg ∷ msgs) = msg.payload

of_any_channel :
    (ps : List Posting) (a : Run) (b : Bool)
    → IsSender ps a
    → IsSender ps (record a { send_closed = b })
of_any_channel ps a b s = record {
  going = s.going;
  queue = s.queue;
  open_yet = s.open_yet;
  unsent = s.unsent;
  room = s.room;
}

module _ (w v : Setting) where
  -- What comes back for `ps`; `qs` says when the server takes the answers, and their wire forms.
  unfoldable pub conversation : List Posting → Way → Bot → List Posting → Way → List Message
  conversation ps there bot qs back =
      journey v qs back.buf
        (taking back.from_run
          (answer_all (journey w ps there.buf there.from_run there.peer there.to_run) bot))
        back.peer back.to_run

  sent-short :
      (ps : List Posting)
      → length w.sender ≡ 64
      → All (λ p. length p.msg.payload ≤ 65439) ps
      → All (λ m. (length m.from ≡ 64) × (length m.payload ≤ 65439)) (messages (received w ps))
  sent-short [] e h = tt
  sent-short (p ∷ ps) e (h, hs) = ((e, h), sent-short ps e hs)

  length-messages : (ps : List Posting) → length (messages (received w ps)) ≡ length ps
  length-messages [] = refl
  length-messages (p ∷ ps) = ap suc (length-messages ps)

  abbrev echo : Posting → List ℕ
  echo p = codes "Echo: " ++ p.msg.payload

  abbrev heard : Message → List ℕ × List ℕ
  heard m = (m.from, m.payload)

  returned-echoes :
      (n : ℕ) (ps qs : List Posting)
      → queued qs ≡ replies n (messages (received w ps))
      → map heard (messages (received v qs)) ≡ map (λ p. (v.sender, echo p)) ps
  unfolding first_payload
  returned-echoes n [] [] e = refl
  returned-echoes n [] (q ∷ qs) e = cc
  returned-echoes n (p ∷ ps) [] e = cc
  returned-echoes n (p ∷ ps) (q ∷ qs) e =
      let same = ap first_payload e in
      let rest = returned-echoes (suc n) ps qs (ap (drop 1) e) in λ i. (v.sender, same i) ∷ rest i

  -- On both ways NATS delivers a subject's messages in order, every message is one that the server
  -- takes and that stays within 64 KB when it is wrapped, the connections are open, no rate limit is
  -- met, and the recipient's queue has room; the sender's send is open and stays so; the bot is fresh,
  -- its send is open and its counter does
  -- not overflow, the sender's name has 64 bytes, no payload has more than 65439, nobody has received
  -- anything yet, and `qs` are the bot's answers as the server takes them. Then for each message that
  -- the sender's application queues, in their order, it receives from the bot a message with the
  -- payload behind "Echo: ", and nothing else.
  pub conversation-echoes :
      (ps qs : List Posting) (there back : Way) (bot : Bot)
      → DeliversInOrder w
      → DeliversInOrder v
      → All (IsPosted w (length there.buf) there.peer.pub_key_hex) ps
      → All (IsPosted v (length back.buf) back.peer.pub_key_hex) qs
      → IsSender ps there.from_run
      → IsSender qs (record back.from_run { send = queued qs })
      → IsIdle ps w.peer_times there.peer
      → IsIdle qs v.peer_times back.peer
      → there.to_run.close_ch ≡ false
      → back.to_run.close_ch ≡ false
      → there.to_run.recv ≡ []
      → back.to_run.recv ≡ []
      → there.from_run.send_closed ≡ false
      → bot.sent ≡ []
      → bot.send_closed ≡ false
      → bot.count + length ps < 2 ^ 63
      → length w.sender ≡ 64
      → All (λ p. length p.msg.payload ≤ 65439) ps
      → queued qs ≡ replies bot.count (messages (received w ps))
      → map heard (conversation ps there bot qs back) ≡ map (λ p. (v.sender, echo p)) ps
  unfolding conversation
  conversation-echoes ps qs there back bot lw lv hw hv sw sv iw iv cw cv before rv talking bs
        open_yet count named short answers =
      ap
        (λ ms.
          map heard (
            journey v qs back.buf (taking back.from_run (answer_all ms bot)) back.peer back.to_run))
        (journey-delivers w ps there.buf there.from_run there.peer there.to_run lw hw sw iw cw
          ∙ ap (λ l. l ++ messages (received w ps)) before)
      ∙ ap (λ o. map heard (journey v qs back.buf (taking back.from_run o) back.peer back.to_run))
          (answer_all-replies_all (messages (received w ps)) bot (sent-short ps named short)
            open_yet (omega (arith, count, length-messages ps))).0
      ∙ ap
          (λ l. map heard (
            journey v qs back.buf (record back.from_run { send = l; send_closed = bot.send_closed })
              back.peer back.to_run))
          (ap (λ l. l ++ replies bot.count (messages (received w ps))) bs ∙ sym answers)
      ∙ ap (map heard) (
          journey-delivers v qs back.buf
            (record back.from_run { send = queued qs; send_closed = bot.send_closed }) back.peer
            back.to_run lv hv (of_any_channel qs _ bot.send_closed sv) iv cv
          ∙ ap (λ l. l ++ messages (received v qs)) rv)
      ∙ returned-echoes bot.count ps qs answers
