-- ===== src/Delivery/InOrder.antt =====
-- What is sent arrives.
use sprut.Router.Peer.Sending
use mathlib.Core.Path.{sym, subst}
use sprut.Protocol.ServerMessage
use sprut.Protocol.ClientMessage
use sprut.Delivery.{
  sent_bytes, published_for, relayed_bytes, journey, received_from, Setting, queued, wires,
  received,
}
use sprut.Client.Loops.{Run}
use sprut.Client.Loops.Writing.{write_rounds-outputs, client_message, sent_frames}
use sprut.Client.Loops.Reading.{read_rounds-delivers, messages, frames, Readable}
use sprut.Router.Serving.Publishes.{
  serve_rounds-publishes, Posting, client_frames, publications, IsTaken,
}
use sprut.Router.Peer.{Peer}
use sprut.Router.Peer.Sending.{write_rounds-drains, handle_all-queued, handle_all, server_frames}
use sprut.Router.Message.Accept.{outgoing}
use sprut.Base.{
  arith, ◌∙◌, append-nil, inr, refl, ◌++◌, suc, true, ap, [], ◌∷◌, false, ◌≤◌, length, map, All,
  ◌≡◌, List, ℕ,
}
use sprut.Broker.Subject.{subject_for_client}
use sprut.Protocol.{max_message_size}
use sprut.Io.{eof}
use sprut.Io.Reads.{reader}
use sprut.Router.Message.{empty_message}

-- The sender: connected, with the messages queued. Its channel may be open or closed behind them.
pub record IsSender (ps : List Posting) (a : Run) : Type 0 where
  pub going : a.close_ch ≡ false
  pub queue : a.send ≡ queued ps
  pub open_yet : a.conn.closed ≡ false
  pub unsent : a.conn.writer.output ≡ []
  pub room : length (client_frames ps) ≤ a.conn.writer.room

-- The recipient's peer: connected, idle, with room in its channel and rounds for what comes.
pub record IsIdle (ps : List Posting) (times : List ℕ) (p : Peer) : Type 0 where
  pub going : p.closed ≡ false
  pub queue : p.write_ch ≡ []
  pub open_yet : p.conn.closed ≡ false
  pub unsent : p.conn.writer.output ≡ []
  pub capacity : length ps ≤ p.capacity
  pub room : length (server_frames (wires ps)) ≤ p.conn.writer.room
  pub rounds : length times ≡ length ps

-- Each message: taken by the server, addressed to the peer, short enough once it is wrapped, and read
-- back from its protobuf form.
pub record IsPosted (w : Setting) (size : ℕ) (to : List ℕ) (p : Posting) : Type 0 where
  pub taken : IsTaken w.marshal w.nats_publish w.sender w.max_size size p
  pub addressed : p.msg.to ≡ to
  pub wire_fits : length p.wire ≤ max_message_size
  pub parsed : w.unmarshal p.wire ≡ inr (outgoing w.marshal w.nats_publish w.sender p.msg p.now)

-- NATS: what is published on a single subject is delivered to its subscriber, in order.
abbrev pub DeliversInOrder : Setting → Type 0
DeliversInOrder w =
    (subject : List ℕ) (bodies : List (List ℕ))
    → w.nats_deliver (map (λ b. (subject, b)) bodies) subject ≡ bodies

sent_frames-queued : (ps : List Posting) → sent_frames (queued ps) ≡ client_frames ps
sent_frames-queued [] = refl
sent_frames-queued (p ∷ ps) = ap (◌++◌ (ClientMessage.frame p.msg)) (sent_frames-queued ps)

length-queued : (ps : List Posting) → length (queued ps) ≡ length ps
length-queued [] = refl
length-queued (p ∷ ps) = ap suc (length-queued ps)

length-wires : (ps : List Posting) → length (wires ps) ≡ length ps
length-wires [] = refl
length-wires (p ∷ ps) = ap suc (length-wires ps)

module _ (w : Setting) where
  length-received : (ps : List Posting) → length (received w ps) ≡ length ps
  length-received [] = refl
  length-received (p ∷ ps) = ap suc (length-received ps)

  frames-received : (ps : List Posting) → server_frames (wires ps) ≡ frames (received w ps)
  frames-received [] = refl
  frames-received (p ∷ ps) =
      ap (◌++◌ (ServerMessage.frame (record { body = p.wire }))) (frames-received ps)

  module _ (size : ℕ) (to : List ℕ) where
    queued-IsSendable :
        (ps : List Posting)
        → All (IsPosted w size to) ps
        → All (λ msg. ClientMessage.IsSendable (client_message msg)) (queued ps)
    queued-IsSendable [] h = tt
    queued-IsSendable (p ∷ ps) (h, hs) = (h.taken.sendable, queued-IsSendable ps hs)

    All-IsTaken :
        (ps : List Posting)
        → All (IsPosted w size to) ps
        → All (IsTaken w.marshal w.nats_publish w.sender w.max_size size) ps
    All-IsTaken [] h = tt
    All-IsTaken (p ∷ ps) (h, hs) = (h.taken, All-IsTaken ps hs)

    wires_fit :
        (ps : List Posting)
        → All (IsPosted w size to) ps
        → All (λ body. length body ≤ max_message_size) (wires ps)
    wires_fit [] h = tt
    wires_fit (p ∷ ps) (h, hs) = (h.wire_fits, wires_fit ps hs)

    received-Readable :
        (ps : List Posting)
        → All (IsPosted w size to) ps
        → All (Readable w.unmarshal) (received w ps)
    received-Readable [] h = tt
    received-Readable (p ∷ ps) (h, hs) = ((h.wire_fits, h.parsed), received-Readable ps hs)

    publications_to :
        (ps : List Posting)
        → All (IsPosted w size to) ps
        → publications ps ≡ map (λ b. (subject_for_client to, b)) (wires ps)
    publications_to [] h = refl
    publications_to (p ∷ ps) (h, hs) =
        λ i. (subject_for_client (h.addressed i), p.wire) ∷ publications_to ps hs i

  sent_bytes-frames :
      (ps : List Posting) (size : ℕ) (to : List ℕ) (a : Run)
      → All (IsPosted w size to) ps
      → IsSender ps a
      → sent_bytes w (suc (length ps)) a ≡ client_frames ps
  unfolding sent_bytes
  sent_bytes-frames ps size to a h s =
      ap (λ n. sent_bytes w (suc n) a) (sym (length-queued ps))
      ∙ write_rounds-outputs true w.write_timeout w.clock false (queued ps) a
          (queued-IsSendable size to ps h) s.going s.queue s.open_yet
          (subst (λ l. length l ≤ a.conn.writer.room) (sym (sent_frames-queued ps)) s.room)
      ∙ ap (λ l. l ++ sent_frames (queued ps)) s.unsent
      ∙ sent_frames-queued ps

  pub published_for-publications :
      (ps : List Posting) (buf : List ℕ)
      → All (IsTaken w.marshal w.nats_publish w.sender w.max_size (length buf)) ps
      → published_for w ps buf (client_frames ps) ≡ publications ps
  unfolding published_for
  published_for-publications ps buf h =
      ap (λ l. published_for w ps buf l) (sym (append-nil (client_frames ps)))
      ∙ (serve_rounds-publishes w.marshal w.nats_publish w.sender w.max_size ps [] eof buf
          empty_message [] h).1

  relayed_bytes-frames :
      (ps : List Posting) (size : ℕ) (p : Peer)
      → DeliversInOrder w
      → All (IsPosted w size p.pub_key_hex) ps
      → IsIdle ps w.peer_times p
      → relayed_bytes w p (publications ps) ≡ server_frames (wires ps)
  unfolding relayed_bytes
  relayed_bytes-frames ps size p law h idle =
      ap (λ bodies. after (handle_all w.unsubscribe bodies p)) delivered
      ∙ ap after kept
      ∙ (write_rounds-drains w.unsubscribe (wires ps) w.peer_times
          (record p { write_ch = p.write_ch ++ wires ps }) (idle.rounds ∙ sym (length-wires ps))
          idle.going (ap (λ l. l ++ wires ps) idle.queue) idle.open_yet
          (wires_fit size p.pub_key_hex ps h) idle.room).2
      ∙ ap (λ l. l ++ server_frames (wires ps)) idle.unsent
    where
      after : Peer → List ℕ
      after q =
          let (loop, r) = Sending.write_rounds w.unsubscribe w.peer_times q in r.conn.writer.output

      delivered : w.nats_deliver (publications ps) (subject_for_client p.pub_key_hex) ≡ wires ps
      delivered =
          ap (λ l. w.nats_deliver l (subject_for_client p.pub_key_hex))
            (publications_to size p.pub_key_hex ps h)
          ∙ law (subject_for_client p.pub_key_hex) (wires ps)

      kept : handle_all w.unsubscribe (wires ps) p ≡ record p { write_ch = p.write_ch ++ wires ps }
      kept =
          handle_all-queued w.unsubscribe (wires ps) p idle.going
            (omega (arith, ap length idle.queue, length-wires ps, idle.capacity))

  received_from-messages :
      (ps : List Posting) (size : ℕ) (to : List ℕ) (b : Run)
      → All (IsPosted w size to) ps
      → b.close_ch ≡ false
      → received_from w (suc (length ps)) b (server_frames (wires ps))
        ≡ b.recv ++ messages (received w ps)
  unfolding received_from
  received_from-messages ps size to b h going =
      ap (λ n. received_from w (suc n) b (server_frames (wires ps))) (sym (length-received ps))
      ∙ (read_rounds-delivers true w.unmarshal false (received w ps)
          (record b { conn = record b.conn { reader = reader (server_frames (wires ps)) eof } })
          (received-Readable size to ps h) going (frames-received ps) refl).1

  -- When a client queues messages for one recipient and all of them are acceptable and stay within
  -- 64 KB when they are wrapped, then over a NATS that delivers a subject's messages in order, with
  -- both connections open, no rate limit met and room in the recipient's queue, the recipient's
  -- application receives every one of them, in order and unchanged, each with the sender's key and the
  -- time at which the server took it.
  pub journey-delivers :
      (ps : List Posting) (buf : List ℕ) (a : Run) (p : Peer) (b : Run)
      → DeliversInOrder w
      → All (IsPosted w (length buf) p.pub_key_hex) ps
      → IsSender ps a
      → IsIdle ps w.peer_times p
      → b.close_ch ≡ false
      → journey w ps buf a p b ≡ b.recv ++ messages (received w ps)
  unfolding journey
  journey-delivers ps buf a p b law h s idle going =
      ap (λ l. received_from w (suc (length ps)) b (relayed_bytes w p (published_for w ps buf l)))
        (sent_bytes-frames ps (length buf) p.pub_key_hex a h s)
      ∙ ap (λ l. received_from w (suc (length ps)) b (relayed_bytes w p l))
          (published_for-publications ps buf (All-IsTaken (length buf) p.pub_key_hex ps h))
      ∙ ap (received_from w (suc (length ps)) b) (relayed_bytes-frames ps (length buf) p law h idle)
      ∙ received_from-messages ps (length buf) p.pub_key_hex b h going
