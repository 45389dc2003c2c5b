-- ===== src/Router/Message/Consumes.antt =====
-- How much of the stream a successful handleMessage takes.
use sprut.Router.Message.{
  min_message_size, Message, Session, read_into, received_into, handle_message, receive, parse,
  send, marshalled, published_or, reset,
}
use sprut.Io.{wrap_outcome, read_full, Error}
use sprut.Base.{
  not, ◌*◌, ◌^◌, ◌%◌, none, leb→le, take, some, length-drop, leb, arith, inr, inl, ◌≤◌, ltb, Option,
  List, Bool-cases, ◌+◌, length, ◌⊎◌, ℕ,
}
use sprut.Io.Ensures.{Ensures-map, Ensures-wrap, Ensures-and_then, Ensures}
use sprut.Broker.Subject.{subject_for_client}
use sprut.Bytes.{be}
use sprut.Bytes.Slices.{slice}
use sprut.Protocol.{max_msg_id_len, public_key_size}
use sprut.Router.Hex.{is_valid_hex_pub_key}

-- At least `k` bytes fewer are to come.
abbrev pub Shrinks {ℓ} : {A : Type ℓ} → ℕ → Session → A → Session → Type 0
Shrinks k s a s' = length s'.reader.pending + k ≤ length s.reader.pending

-- Of an error nothing is asked.
abbrev pub Anything : Error → Session → Type 0
Anything e s = Unit

read_into-Shrinks : (n : ℕ) (s : Session) → Ensures (Shrinks n s) Anything (read_into n s)
unfolding read_into received_into read_full
read_into-Shrinks n s = elim (Bool-cases (ltb (length s.buf) n)) [
  | inl short ↦ rw short tt
  | inr fits ↦ elim (Bool-cases (leb n (length s.reader.pending))) [
    | inl whole ↦
        rw (fits, whole)
          (omega (arith, length-drop n s.reader.pending, leb→le n (length s.reader.pending) whole))
    | inr part ↦ rw (fits, part) tt
  ]
]

module _ (marshal : Message → Error ⊎ List ℕ) (nats_publish : List ℕ → List ℕ → Option Error)
    (pub_key_hex : List ℕ) where
  send-Shrinks :
      (to msg_id payload : List ℕ) (now : ℕ) (s : Session)
      → Ensures
          (Shrinks 0 s)
          Anything
          (send marshal nats_publish pub_key_hex to msg_id payload now s)
  unfolding send marshalled published_or reset
  send-Shrinks to msg_id payload now s = by_marshal (
      marshal (record {
        from = pub_key_hex;
        to = to;
        id = msg_id;
        payload = payload;
        unix_date_time = now;
      }))
    where
      s1 : Session
      s1 = record s {
        pooled = record {
          from = pub_key_hex;
          to = to;
          id = msg_id;
          payload = payload;
          unix_date_time = now;
        };
      }

      by_publish :
          (body : List ℕ) (o : Option Error)
          → Ensures (Shrinks 0 s) Anything (
              reset marshal nats_publish pub_key_hex (
                wrap_outcome "publish to NATS" (
                  published_or marshal nats_publish pub_key_hex (subject_for_client to) body o s1)))
      by_publish body none = omega arith
      by_publish body (some e) = tt

      by_marshal :
          (x : Error ⊎ List ℕ)
          → Ensures (Shrinks 0 s) Anything (
              reset marshal nats_publish pub_key_hex
                (marshalled marshal nats_publish pub_key_hex to x s1))
      by_marshal (inl e) = tt
      by_marshal (inr body) = by_publish body (nats_publish (subject_for_client to) body)

  parse-Shrinks :
      (total now : ℕ) (buf : List ℕ) (s : Session)
      → Ensures (Shrinks 0 s) Anything (parse marshal nats_publish pub_key_hex total now buf s)
  unfolding parse
  parse-Shrinks total now buf s =
      elim (Bool-cases (not (is_valid_hex_pub_key (take (public_key_size * 2) buf)))) [
        | inl bad ↦ rw bad tt
        | inr valid ↦ elim (Bool-cases (ltb max_msg_id_len id_len)) [
          | inl long ↦ rw (valid, long) tt
          | inr short ↦ elim (Bool-cases (ltb total (public_key_size * 2 + 2 + id_len))) [
            | inl over ↦ rw (valid, short, over) tt
            | inr within ↦ rw (valid, short, within) (send-Shrinks _ _ _ now s)
          ]
        ]
      ]
    where
      id_len : ℕ
      id_len = be (slice (public_key_size * 2) (public_key_size * 2 + 2) buf)

  receive-Shrinks :
      (max_size now total : ℕ) (s : Session)
      → Ensures
          (Shrinks 0 s)
          Anything
          (receive marshal nats_publish pub_key_hex max_size now total s)
  unfolding receive
  receive-Shrinks max_size now total s = elim (Bool-cases (ltb (max_size % 2 ^ 32) total)) [
    | inl large ↦ rw large tt
    | inr fits ↦ elim (Bool-cases (ltb total min_message_size)) [
      | inl small ↦ rw (fits, small) tt
      | inr enough ↦ elim (Bool-cases (ltb (length s.buf) total)) [
        | inl over ↦ rw (fits, enough, over) tt
        | inr within ↦
            rw (fits, enough, within)
              (Ensures-and_then (Shrinks 0 s) (Shrinks 0 s) Anything
                (wrap_outcome "read message body" (read_into total s)) _
                (Ensures-wrap (Shrinks 0 s) Anything Anything "read message body"
                  (read_into total s) (λ e t u. tt)
                  (Ensures-map (Shrinks total s) (Shrinks 0 s) Anything Anything (read_into total s)
                    (λ a t h. omega arith) (λ e t u. tt) (read_into-Shrinks total s)))
                (λ a t h.
                  Ensures-map (Shrinks 0 t) (Shrinks 0 s) Anything Anything
                    (parse marshal nats_publish pub_key_hex total now t.buf t)
                    (λ b u g. omega arith) (λ e u g. tt) (parse-Shrinks total now t.buf t)))
      ]
    ]
  ]

  -- A call of handleMessage that succeeds has taken at least four bytes from the stream.
  pub handle_message-Shrinks :
      (max_size now : ℕ) (s : Session)
      → Ensures
          (Shrinks 4 s)
          Anything
          (handle_message marshal nats_publish pub_key_hex max_size now s)
  unfolding handle_message
  handle_message-Shrinks max_size now s =
      Ensures-and_then (Shrinks 4 s) (Shrinks 4 s) Anything
        (wrap_outcome "read length" (read_into 4 s)) _
        (Ensures-wrap (Shrinks 4 s) Anything Anything "read length" (read_into 4 s) (λ e t u. tt)
          (read_into-Shrinks 4 s))
        (λ a t h.
          Ensures-map (Shrinks 0 t) (Shrinks 4 s) Anything Anything
            (receive marshal nats_publish pub_key_hex max_size now (be (take 4 t.buf)) t)
            (λ b u g. omega arith) (λ e u g. tt)
            (receive-Shrinks max_size now (be (take 4 t.buf)) t))
