-- ===== src/Delivery.antt =====
-- The way of messages through the whole program, from one client's send channel to another's receive
-- channel: writeLoop of pkg/client/client.go, the read loop of pkg/router/router.go, NATS, the queue and
-- writeLoop of pkg/router/peer.go, and readLoop of pkg/client/client.go. What NATS delivers is a
-- parameter.
pub mod InOrder
pub mod Beginning
pub mod Disconnect
pub mod Echo
use sprut.Client.Loops.{Run, OutgoingMessage}
use sprut.Client.Loops.Writing
use sprut.Client.Loops.Writing.{client_message, sent_frames, write_rounds-sends}
use sprut.Client.Loops.Reading.{read_rounds, read_rounds-delivers, frames, messages, Readable}
use sprut.Router.Serving.{serve_rounds}
use sprut.Router.Serving.Publishes.{
  Posting, client_frames, calm, publications, IsTaken, serve_rounds-publishes,
}
use sprut.Router.Peer.{Peer}
use sprut.Router.Peer.Sending
use sprut.Router.Peer.Sending.{handle_all, handle_all-queued, server_frames, write_rounds-drains}
use sprut.Router.Message.{Message, empty_message}
use sprut.Router.Message.Accept.{session, outgoing}
use sprut.Base.{ℤ, false, length, [], Option, true, suc, ◌⊎◌, ◌∷◌, ℕ, List}
use sprut.Io.{Reader, eof, Error}
use sprut.Broker.Subject.{subject_for_client}
use sprut.Io.Reads.{reader}

-- The sender's messages as its application queues them.
abbrev pub queued : List Posting → List OutgoingMessage
queued [] = []
queued (p ∷ ps) =
    record { to = p.msg.to; msg_id = p.msg.msg_id; payload = p.msg.payload } ∷ queued ps

abbrev pub wires : List Posting → List (List ℕ)
wires [] = []
wires (p ∷ ps) = p.wire ∷ wires ps

-- What goes round a delivery: the functions of protobuf and NATS, and how the rounds fall.
pub record Setting : Type 0 where
  pub marshal : Message → Error ⊎ List ℕ
  pub unmarshal : List ℕ → Error ⊎ Message
  pub nats_publish : List ℕ → List ℕ → Option Error
  pub nats_deliver : List (List ℕ × List ℕ) → List ℕ → List (List ℕ)
  pub unsubscribe : Option Error
  pub max_size : ℕ
  pub write_timeout : ℤ
  pub clock : ℕ → ℕ
  pub peer_times : List ℕ
  pub sender : List ℕ

module _ (w : Setting) where
  -- The messages as their recipient sees them.
  abbrev pub received : List Posting → List (List ℕ × Message)
  received [] = []
  received (p ∷ ps) = (p.wire, outgoing w.marshal w.nats_publish w.sender p.msg p.now) ∷ received ps

  -- The bytes that the sender's writeLoop leaves on the wire.
  sent_bytes : ℕ → Run → List ℕ
  sent_bytes n a =
      (Writing.write_rounds true w.write_timeout w.clock false n a).1.conn.writer.output

  -- What the server publishes for them.
  unfoldable pub published_for : List Posting → List ℕ → List ℕ → List (List ℕ × List ℕ)
  published_for ps buf bytes =
      (serve_rounds w.marshal w.nats_publish w.sender w.max_size (calm ps)
        (session bytes eof buf empty_message [])).1.published

  -- What the recipient's peer writes of it.
  relayed_bytes : Peer → List (List ℕ × List ℕ) → List ℕ
  relayed_bytes p pubs =
      let bodies = w.nats_deliver pubs (subject_for_client p.pub_key_hex) in
      let (loop, q) =
        Sending.write_rounds w.unsubscribe w.peer_times (handle_all w.unsubscribe bodies p) in
      q.conn.writer.output

  -- What the recipient's readLoop delivers of that.
  received_from : ℕ → Run → List ℕ → List Message
  received_from n b bytes =
      (read_rounds true w.unmarshal false n
        (record b { conn = record b.conn { reader = reader bytes eof } })).1.recv

  unfoldable pub journey : List Posting → List ℕ → Run → Peer → Run → List Message
  unfolding sent_bytes published_for relayed_bytes received_from
  journey ps buf a p b =
      received_from (suc (length ps)) b
        (relayed_bytes p (published_for ps buf (sent_bytes (suc (length ps)) a)))
