-- ===== src/Router/Peer/Sending.antt =====
-- The queue of a peer on its way to the client: what NATS hands over is written out in order.
use sprut.Protocol.{max_message_size}
use sprut.Router.Peer.{
  is_stale, is_empty, encoded, refreshed, send_frame, enqueue, looped, refresh_deadline,
  write_message, take_next, Peer, handle_nats_message, write_step,
}
use sprut.Protocol.ServerMessage
use sprut.Protocol.ServerMessage.{ServerMessage}
use sprut.Io.{and_then, ok, push, stopped, Error, running, Loop}
use sprut.Base.{
  inr, refl, some, inl, append_assoc, lt→ltb, ◌∙◌, length-append, ltb, ◌&&◌, arith, Bool-cases,
  if_true, if_false, append-nil, sym, ap, All, ◌<◌, ◌≤◌, ◌+◌, [], length, false, ◌++◌, ◌∷◌, ◌≡◌, ℕ,
  List, Option,
}
use sprut.Io.Conn.{set_deadline-open, writing-Writes}

next : (Peer → Loop × Peer) → Loop × Peer → Loop × Peer
next f (running, p) = f p
next f (stopped, p) = (stopped, p)

-- Rounds of writeLoop at the given times.
unfoldable pub write_rounds : Option Error → List ℕ → Peer → Loop × Peer
unfolding next
write_rounds unsubscribe [] p = (running, p)
write_rounds unsubscribe (now ∷ nows) p =
    next (write_rounds unsubscribe nows) (write_step false unsubscribe now p)

-- Messages from NATS, one after the other.
unfoldable pub handle_all : Option Error → List (List ℕ) → Peer → Peer
handle_all unsubscribe [] p = p
handle_all unsubscribe (body ∷ bodies) p =
    handle_all unsubscribe bodies (handle_nats_message false unsubscribe body p)

abbrev pub server_frames : List (List ℕ) → List ℕ
server_frames [] = []
server_frames (body ∷ bodies) = ServerMessage.frame (record { body = body }) ++ server_frames bodies

handle_nats_message-queued :
    (unsubscribe : Option Error) (body : List ℕ) (p : Peer)
    → p.closed ≡ false
    → length p.write_ch < p.capacity
    → handle_nats_message false unsubscribe body p ≡ enqueue body p
unfolding handle_nats_message
handle_nats_message-queued unsubscribe body p open_yet room =
    if_true _ _ (ltb (length p.write_ch) p.capacity) (lt→ltb _ _ room)
    ∙ if_false _ _ (p.closed && false) (ap (λ b. b && false) open_yet)

-- An open peer keeps all that NATS hands over while the channel has room.
pub handle_all-queued :
    (unsubscribe : Option Error) (bodies : List (List ℕ)) (p : Peer)
    → p.closed ≡ false
    → length p.write_ch + length bodies ≤ p.capacity
    → handle_all unsubscribe bodies p ≡ record p { write_ch = p.write_ch ++ bodies }
unfolding handle_all enqueue
handle_all-queued unsubscribe [] p open_yet room =
    ap (λ l. record p { write_ch = l }) (sym (append-nil p.write_ch))
handle_all-queued unsubscribe (body ∷ bodies) p open_yet room =
    ap (handle_all unsubscribe bodies)
      (handle_nats_message-queued unsubscribe body p open_yet (omega arith))
    ∙ handle_all-queued unsubscribe bodies (record p { write_ch = p.write_ch ++ (body ∷ []) })
        open_yet (omega (arith, length-append p.write_ch (body ∷ [])))
    ∙ ap (λ l. record p { write_ch = l }) (append_assoc p.write_ch (body ∷ []) bodies)

-- A peer that has written a message, under some deadline.
abbrev peer_after : List ℕ → Option ℕ → Option ℕ → Peer → Peer
peer_after body d last p = record p {
  conn = record p.conn {
    deadline = d;
    writer = push (ServerMessage.frame (record { body = body })) p.conn.writer;
  };
  last_deadline = last;
}

refresh_deadline-open :
    (now : ℕ) (p : Peer)
    → p.conn.closed ≡ false
    → (d : Option ℕ) × (last : Option ℕ) × (refresh_deadline now p
        ≡ ok tt (record p { conn = record p.conn { deadline = d }; last_deadline = last }))
unfolding refresh_deadline refreshed
refresh_deadline-open now p open_yet =
    elim (Bool-cases (is_stale now p.write_timeout p.last_deadline)) [
      | inl stale ↦ (
        some (now + p.write_timeout),
        some now,
        if_true _ _ (is_stale now p.write_timeout p.last_deadline) stale
            ∙ ap (refreshed now p)
                (set_deadline-open (some (now + p.write_timeout)) p.conn open_yet),
      )
      | inr recent ↦ (
        p.conn.deadline,
        p.last_deadline,
        if_false _ _ (is_stale now p.write_timeout p.last_deadline) recent,
      )
    ]

write_message-writes :
    (now : ℕ) (body : List ℕ) (p : Peer)
    → p.conn.closed ≡ false
    → length body ≤ max_message_size
    → length (ServerMessage.frame (record { body = body })) ≤ p.conn.writer.room
    → (d : Option ℕ) × (last : Option ℕ) × (write_message now body p
        ≡ ok tt (peer_after body d last p))
unfolding write_message send_frame encoded
write_message-writes now body p open_yet fits room =
    let (d, last, refreshes) = refresh_deadline-open now p open_yet in
    (
      d,
      last,
      ap (λ o. and_then o (λ _. send_frame body)) refreshes
          ∙ ap (encoded (record p { conn = record p.conn { deadline = d }; last_deadline = last }))
              (writing-Writes (ServerMessage.frame (record { body = body }))
                (ServerMessage.encode (record { body = body })) (record p.conn { deadline = d })
                (ServerMessage.ServerMessage-Transmits (record { body = body }) fits).written
                open_yet room),
    )

write_step-writes :
    (unsubscribe : Option Error) (now : ℕ) (body : List ℕ) (bodies : List (List ℕ)) (p : Peer)
    → p.closed ≡ false
    → p.write_ch ≡ body ∷ bodies
    → p.conn.closed ≡ false
    → length body ≤ max_message_size
    → length (ServerMessage.frame (record { body = body })) ≤ p.conn.writer.room
    → (d : Option ℕ) × (last : Option ℕ) × (write_step false unsubscribe now p
        ≡ (running, peer_after body d last (record p { write_ch = bodies })))
unfolding write_step take_next looped
write_step-writes unsubscribe now body bodies p going queued open_yet fits room =
    let (d, last, writes) =
      write_message-writes now body (record p { write_ch = bodies }) open_yet fits room in
    (
      d,
      last,
      if_false _ _ (p.closed && is_empty p.write_ch) (ap (λ b. b && is_empty p.write_ch) going)
          ∙ ap (take_next unsubscribe now p) queued
          ∙ ap (looped unsubscribe) writes,
    )

-- The queue of an open peer is written out in order, one message in each round, where none of its
-- messages is longer than 64 KB; the peer and its connection stay open.
pub write_rounds-drains :
    (unsubscribe : Option Error) (bodies : List (List ℕ)) (nows : List ℕ) (p : Peer)
    → length nows ≡ length bodies
    → p.closed ≡ false
    → p.write_ch ≡ bodies
    → p.conn.closed ≡ false
    → All (λ body. length body ≤ max_message_size) bodies
    → length (server_frames bodies) ≤ p.conn.writer.room
    → let (loop, q) = write_rounds unsubscribe nows p in
      (loop ≡ running)
      × (q.write_ch ≡ [])
      × (q.conn.writer.output ≡ p.conn.writer.output ++ server_frames bodies)
      × (q.closed ≡ false)
      × (q.conn.closed ≡ false)
unfolding write_rounds next
write_rounds-drains unsubscribe [] [] p e going queued open_yet fit room =
    (refl, queued, sym (append-nil p.conn.writer.output), going, open_yet)
write_rounds-drains unsubscribe [] (now ∷ nows) p e going queued open_yet fit room =
    absurd (omega arith)
write_rounds-drains unsubscribe (body ∷ bodies) [] p e going queued open_yet fit room =
    absurd (omega arith)
write_rounds-drains unsubscribe (body ∷ bodies) (now ∷ nows) p e going queued open_yet (one, fit)
      room =
    let frame = ServerMessage.frame (record { body = body }) in
    let (d, last, steps) =
      write_step-writes unsubscribe now body bodies p going queued open_yet one
        (omega (arith, room, length-append frame (server_frames bodies))) in
    rw steps (
      let (loops, empty, out, open_still, open_conn) =
        write_rounds-drains unsubscribe bodies nows
          (peer_after body d last (record p { write_ch = bodies })) (omega arith) going refl
          open_yet fit (omega (arith, room, length-append frame (server_frames bodies))) in
      (
        loops,
        empty,
        out ∙ append_assoc p.conn.writer.output frame (server_frames bodies),
        open_still,
        open_conn,
      ))
