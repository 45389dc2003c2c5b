-- ===== src/Router/Peer/Shown.antt =====
-- What writeMessage of pkg/router/peer.go may leave of one message on the wire.
use sprut.Base.{
  length-append, take-append-drop, ltb→le, leb→lt, leb→le, ltb→lt, leb, arith, ◌+◌, ltb, Bool-cases,
  Bool, append-nil, refl, ◌≡◌, ◌++◌, ◌∙◌, Option, ℕ, [], some, true, false, inl, inr, if◌then◌else◌,
  List, length, take, drop, ◌<◌,
}
use sprut.Io.{and_then, push, net_closed, Writer, Outcome, ok, err}
use sprut.Protocol.ServerMessage
use sprut.Protocol.ServerMessage.{server_message_too_large, ServerMessage}
use mathlib.Core.Path.{ap, sym, subst}
use sprut.Router.Peer.{
  is_stale, encoded, refreshed, send_frame, write_message, Peer, refresh_deadline,
}
use sprut.Io.Conn.{
  writing_back, writing-open, writer_of-output, writing-Writes, writer_of, writing-shut, writing,
  set_deadline,
}
use sprut.Io.Ensures.{Ensures}
use sprut.Io.Writes.{Writes}
use sprut.Protocol.{max_message_size}
use sprut.Bytes.{length-put_be, put_be}

-- A peer as it was, but for its connection's writer and deadline and what it remembers of that one.
pub record IsAlike (p q : Peer) : Type 0 where
  pub closed : q.closed ≡ p.closed
  pub conn_closed : q.conn.closed ≡ p.conn.closed
  pub write_ch : q.write_ch ≡ p.write_ch
  pub capacity : q.capacity ≡ p.capacity

-- The wire then shows `part` more.
pub record Adds (part : List ℕ) (p q : Peer) : Type 0 where
  pub alike : IsAlike p q
  pub output : q.conn.writer.output ≡ p.conn.writer.output ++ part

-- The beginning of a frame, and nothing at all on a closed connection.
pub record AddsPart (frame : List ℕ) (p q : Peer) : Type 0 where
  pub part : List ℕ
  pub rest : List ℕ
  pub split : part ++ rest ≡ frame
  pub adds : Adds part p q
  pub silent : p.conn.closed ≡ true → part ≡ []

IsAlike-trans : (p q r : Peer) → IsAlike p q → IsAlike q r → IsAlike p r
IsAlike-trans p q r a b = record {
  closed = b.closed ∙ a.closed;
  conn_closed = b.conn_closed ∙ a.conn_closed;
  write_ch = b.write_ch ∙ a.write_ch;
  capacity = b.capacity ∙ a.capacity;
}

Adds-after : (part : List ℕ) (p q r : Peer) → Adds [] p q → Adds part q r → Adds part p r
Adds-after part p q r a b = record {
  alike = IsAlike-trans p q r a.alike b.alike;
  output = b.output ∙ ap (λ l. l ++ part) (a.output ∙ append-nil p.conn.writer.output);
}

Adds-none :
    (p : Peer) (d last : Option ℕ)
    → Adds [] p (record p { conn = record p.conn { deadline = d }; last_deadline = last })
Adds-none p d last = record {
  alike = record { closed = refl; conn_closed = refl; write_ch = refl; capacity = refl };
  output = sym (append-nil p.conn.writer.output);
}

-- The deadline puts nothing on the wire.
refresh_deadline-Adds :
    (now : ℕ) (p : Peer) → Ensures (λ _. Adds [] p) (λ _. Adds [] p) (refresh_deadline now p)
unfolding refresh_deadline set_deadline refreshed
refresh_deadline-Adds now p = elim (Bool-cases (is_stale now p.write_timeout p.last_deadline)) [
  | inl stale ↦ rw stale (by_closed p.conn.closed)
  | inr recent ↦ rw recent (Adds-none p p.conn.deadline p.last_deadline)
]
  where
    by_closed :
        (b : Bool)
        → Ensures
            (λ _. Adds [] p)
            (λ _. Adds [] p)
            (refreshed now p (
              if b
              then err net_closed p.conn
              else ok tt (record p.conn { deadline = some (now + p.write_timeout) })))
    by_closed true = Adds-none p p.conn.deadline p.last_deadline
    by_closed false = Adds-none p (some (now + p.write_timeout)) (some now)

module _ (body : List ℕ) where
  abbrev frame : List ℕ
  frame = ServerMessage.frame (record { body = body })

  -- A message is written in full, on an open connection; or a part of its frame, with an error.
  abbrev pub Shows : Peer → Outcome Peer (Unit {0}) → Type 0
  Shows p o =
      Ensures (λ _ q. (p.conn.closed ≡ false) × Adds frame p q) (λ _ q. AddsPart frame p q) o

  Adds-writer :
      (part : List ℕ) (p : Peer) (w : Writer)
      → w.output ≡ p.conn.writer.output ++ part
      → Adds part p (record p { conn = record p.conn { writer = w } })
  Adds-writer part p w e = record {
    alike = record { closed = refl; conn_closed = refl; write_ch = refl; capacity = refl };
    output = e;
  }

  -- Nothing was written.
  silent_part :
      (p : Peer) (w : Writer)
      → w.output ≡ p.conn.writer.output
      → AddsPart frame p (record p { conn = record p.conn { writer = w } })
  silent_part p w e = record {
    part = [];
    rest = frame;
    split = refl;
    adds = Adds-writer [] p w (e ∙ sym (append-nil p.conn.writer.output));
    silent = λ shut. refl;
  }

  frame-positive : 0 < length frame
  frame-positive =
      omega (arith, length-append (put_be 4 (length body)) body, length-put_be 4 (length body))

  fitting-Shows :
      (p : Peer)
      → Writes frame (ServerMessage.encode (record { body = body }))
      → Shows p (send_frame body p)
  unfolding send_frame encoded writing
  fitting-Shows p v = elim (Bool-cases p.conn.closed) [
    | inl shut ↦
        let (e, w, q, same) =
          writing-shut frame (ServerMessage.encode (record { body = body })) p.conn v frame-positive
            shut in
        subst (λ o. Shows p (encoded p o)) (sym q) (silent_part p w same)
    | inr open_yet ↦ elim (Bool-cases (leb (length frame) p.conn.writer.room)) [
      | inl room ↦
          subst (λ o. Shows p (encoded p o))
            (sym (
              writing-Writes frame (ServerMessage.encode (record { body = body })) p.conn v open_yet
                (leb→le _ _ room)))
            (open_yet, Adds-writer frame p (push frame p.conn.writer) refl)
      | inr short ↦
          let (e, q) = v.part p.conn.writer (leb→lt _ _ short) in
          let cut = take p.conn.writer.room frame in
          subst (λ o. Shows p (encoded p o))
            (sym (
              writing-open (ServerMessage.encode (record { body = body })) p.conn open_yet
              ∙ ap (writing_back p.conn) q))
            (record {
              part = cut;
              rest = drop p.conn.writer.room frame;
              split = take-append-drop p.conn.writer.room frame;
              adds = Adds-writer cut p (push cut p.conn.writer) refl;
              silent = λ shut. cc;
            })
    ]
  ]

  send_frame-Shows : (p : Peer) → Shows p (send_frame body p)
  unfolding send_frame writing
  send_frame-Shows p = elim (Bool-cases (ltb max_message_size (length body))) [
    | inl large ↦
        rw (server_message_too_large (record { body = body }) (writer_of p.conn) (ltb→lt _ _ large))
          (silent_part p (writer_of p.conn) (writer_of-output p.conn))
    | inr fits ↦
        fitting-Shows p
          (ServerMessage.ServerMessage-Transmits (record { body = body }) (ltb→le _ _ fits)).written
  ]

  -- Behind a call that puts nothing there.
  after_silence : (p q : Peer) (o : Outcome Peer (Unit {0})) → Adds [] p q → Shows q o → Shows p o
  after_silence p q (ok u r) a (open_yet, b) =
      (sym a.alike.conn_closed ∙ open_yet, Adds-after frame p q r a b)
  after_silence p q (err e r) a b = record {
    part = b.part;
    rest = b.rest;
    split = b.split;
    adds = Adds-after b.part p q r a b.adds;
    silent = λ shut. b.silent (a.alike.conn_closed ∙ shut);
  }

  -- writeMessage puts the whole frame on an open connection, or fails with a part of it there.
  pub write_message-Shows : (now : ℕ) (p : Peer) → Shows p (write_message now body p)
  unfolding write_message
  write_message-Shows now p = by_refresh (refresh_deadline now p) (refresh_deadline-Adds now p)
    where
      by_refresh :
          (o : Outcome Peer (Unit {0}))
          → Ensures (λ _. Adds [] p) (λ _. Adds [] p) o
          → Shows p (and_then o (λ _. send_frame body))
      by_refresh (ok u q) a = after_silence p q (send_frame body q) a (send_frame-Shows q)
      by_refresh (err e q) a = record {
        part = [];
        rest = frame;
        split = refl;
        adds = a;
        silent = λ shut. refl;
      }
