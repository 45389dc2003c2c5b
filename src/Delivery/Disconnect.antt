-- ===== src/Delivery/Disconnect.antt =====
-- What becomes of a recipient whom a message reaches that grows past 64 KB when it is wrapped.
use mathlib.Core.Path.{sym, ap, subst}
use sprut.Delivery.{Setting, published_for}
use sprut.Delivery.InOrder.{DeliversInOrder, published_for-publications}
use sprut.Router.Serving.Publishes.{Posting, client_frames, IsTaken}
use sprut.Router.Peer.{Peer, write_step}
use sprut.Router.Peer.Sending.{handle_all, handle_all-queued}
use sprut.Router.Peer.Oversize.{write_step-oversized}
use sprut.Base.{arith, ◌++◌, ◌∙◌, true, ◌≤◌, false, ◌<◌, [], ◌∷◌, ◌≡◌, length, List, ℕ}
use sprut.Io.{stopped, Loop}
use sprut.Protocol.{max_message_size}
use sprut.Broker.Subject.{subject_for_client}

module _ (w : Setting) where
  -- The recipient's peer after one message has come to it by way of the server and NATS, and one
  -- round of its writeLoop.
  unfoldable pub after_one : ℕ → Posting → List ℕ → Peer → Loop × Peer
  after_one now p buf q =
      let pubs = published_for w (p ∷ []) buf (client_frames (p ∷ [])) in
      let bodies = w.nats_deliver pubs (subject_for_client q.pub_key_hex) in
      write_step false w.unsubscribe now (handle_all w.unsubscribe bodies q)

  -- A message that the server takes from its sender, within all limits, but whose protobuf form is
  -- longer than 64 KB disconnects its recipient: the recipient's writeLoop closes the peer, and
  -- nothing of the message is written.
  pub after_one-closed :
      (now : ℕ) (p : Posting) (buf : List ℕ) (q : Peer)
      → DeliversInOrder w
      → IsTaken w.marshal w.nats_publish w.sender w.max_size (length buf) p
      → p.msg.to ≡ q.pub_key_hex
      → max_message_size < length p.wire
      → q.closed ≡ false
      → q.write_ch ≡ []
      → 1 ≤ q.capacity
      → let (loop, r) = after_one now p buf q in
        (loop ≡ stopped) × (r.closed ≡ true) × (r.conn.writer.output ≡ q.conn.writer.output)
  unfolding after_one
  after_one-closed now p buf q law taken addressed long going idle room =
      subst
        (λ r.
          let (loop, t) = write_step false w.unsubscribe now r in
          (loop ≡ stopped) × (t.closed ≡ true) × (t.conn.writer.output ≡ q.conn.writer.output))
        (sym reached)
        (write_step-oversized false w.unsubscribe now
          (record q { write_ch = q.write_ch ++ (p.wire ∷ []) }) p.wire [] going
          (ap (λ l. l ++ (p.wire ∷ [])) idle) long)
    where
      bodies_are :
          w.nats_deliver
            (published_for w (p ∷ []) buf (client_frames (p ∷ [])))
            (subject_for_client q.pub_key_hex)
          ≡ p.wire ∷ []
      bodies_are =
          ap (λ l. w.nats_deliver l (subject_for_client q.pub_key_hex))
            (published_for-publications w (p ∷ []) buf (taken, tt)
              ∙ ap (λ to. (subject_for_client to, p.wire) ∷ []) addressed)
          ∙ law (subject_for_client q.pub_key_hex) (p.wire ∷ [])

      reached :
          handle_all w.unsubscribe
            (w.nats_deliver
              (published_for w (p ∷ []) buf (client_frames (p ∷ [])))
              (subject_for_client q.pub_key_hex))
            q
          ≡ record q { write_ch = q.write_ch ++ (p.wire ∷ []) }
      reached =
          ap (λ bodies. handle_all w.unsubscribe bodies q) bodies_are
          ∙ handle_all-queued w.unsubscribe (p.wire ∷ []) q going (omega (arith, ap length idle))
