-- ===== src/Router/Message/Safety.antt =====
-- What one call of handleMessage can publish, on any bytes that a client may send.
use sprut.Router.Message.{
  handle_message, receive, marshalled, published_or, reset, received_into, min_message_size, send,
  parse, read_into, Session, Message,
}
use sprut.Io.{read_full, err, ok, wrap_outcome, Reader, Outcome, Error}
use mathlib.Core.Path.{subst₂}
use sprut.Base.{
  length-drop, drop, ◌-◌, length-take, tests, ◌^◌, ◌%◌, inl, ltb, Bool-cases, some, ap, arith, refl,
  [], ◌∷◌, take, ◌+◌, ◌++◌, none, true, length, inr, ◌≡◌, ◌≤◌, Option, ℕ, List, ◌⊎◌,
}
use sprut.Io.Ensures.{Ensures-wrap, Ensures-and_then, Ensures}
use sprut.Router.Hex.{is_valid_length, is_valid_hex_pub_key}
use sprut.Broker.Subject.{subject_for_client}
use sprut.Protocol.{max_msg_id_len}
use sprut.Bytes.Slices.{slice, length-copy_at}
use sprut.Bytes.{be}

module _ (marshal : Message → Error ⊎ List ℕ) (nats_publish : List ℕ → List ℕ → Option Error)
    (pub_key_hex : List ℕ) where
  -- One message went out behind the `old` ones: from this client, to a valid recipient, with an id
  -- of at most 256 bytes, no longer than the limit, stamped with the time of the call.
  pub record Sent (old : List (List ℕ × List ℕ)) (max_size now : ℕ) (s : Session) : Type 0 where
    pub msg : Message
    pub body : List ℕ
    pub marshalled : marshal msg ≡ inr body
    pub taken : nats_publish (subject_for_client msg.to) body ≡ none
    pub published : s.published ≡ old ++ ((subject_for_client msg.to, body) ∷ [])
    pub from_client : msg.from ≡ pub_key_hex
    pub to_valid : is_valid_hex_pub_key msg.to ≡ true
    pub id_fits : length msg.id ≤ max_msg_id_len
    pub total_fits : length msg.to + 2 + length msg.id + length msg.payload ≤ max_size
    pub stamped : msg.unix_date_time ≡ now

  -- Nothing went out, and the buffer lent by the pool has its length.
  abbrev pub Unsent : List (List ℕ × List ℕ) → ℕ → Error → Session → Type 0
  Unsent old size e s = (s.published ≡ old) × (length s.buf ≡ size)

  abbrev Kept : Session → Unit {0} → Session → Type 0
  Kept s a s' = (s'.published ≡ s.published) × (length s'.buf ≡ length s.buf)

  read_into-Kept :
      (n : ℕ) (s : Session) → Ensures (Kept s) (Unsent s.published (length s.buf)) (read_into n s)
  unfolding read_into
  read_into-Kept n s = elim (Bool-cases (ltb (length s.buf) n)) [
    | inl short ↦ rw short (refl, refl)
    | inr fits ↦ rw fits (into (read_full n s.reader))
  ]
    where
      into :
          (o : Outcome Reader (List ℕ))
          → Ensures
              (Kept s)
              (Unsent s.published (length s.buf))
              (received_into (take n s.reader.pending) s o)
      into (ok bytes r) = (refl, length-copy_at 0 bytes s.buf (omega arith))
      into (err e r) = (refl, length-copy_at 0 (take n s.reader.pending) s.buf (omega arith))

  -- `send` publishes one message or none.
  send-Sent :
      (old : List (List ℕ × List ℕ)) (size max_size now : ℕ) (to msg_id payload : List ℕ)
      (s : Session)
      → s.published ≡ old
      → length s.buf ≡ size
      → is_valid_hex_pub_key to ≡ true
      → length msg_id ≤ max_msg_id_len
      → length to + 2 + length msg_id + length payload ≤ max_size
      → Ensures
          (λ _. Sent old max_size now)
          (Unsent old size)
          (send marshal nats_publish pub_key_hex to msg_id payload now s)
  unfolding send
  send-Sent old size max_size now to msg_id payload s p q v i t = by_marshal (marshal msg) refl
    where
      msg : Message
      msg = record {
        from = pub_key_hex;
        to = to;
        id = msg_id;
        payload = payload;
        unix_date_time = now;
      }

      by_publish :
          (body : List ℕ)
          → marshal msg ≡ inr body
          → (x : Option Error) → nats_publish (subject_for_client to) body ≡ x
          → Ensures
              (λ _. Sent old max_size now)
              (Unsent old size)
              (reset marshal nats_publish pub_key_hex (
                wrap_outcome "publish to NATS" (
                  published_or marshal nats_publish pub_key_hex
                    (subject_for_client to)
                    body
                    x
                    (record s { pooled = msg }))))
      by_publish body m none e = record {
        msg = msg;
        body = body;
        marshalled = m;
        taken = e;
        published = ap (λ l. l ++ ((subject_for_client to, body) ∷ [])) p;
        from_client = refl;
        to_valid = v;
        id_fits = i;
        total_fits = t;
        stamped = refl;
      }
      by_publish body m (some x) e = (p, q)

      by_marshal :
          (x : Error ⊎ List ℕ)
          → marshal msg ≡ x
          → Ensures
              (λ _. Sent old max_size now)
              (Unsent old size)
              (reset marshal nats_publish pub_key_hex
                (marshalled marshal nats_publish pub_key_hex to x (record s { pooled = msg })))
      by_marshal (inl e) h = (p, q)
      by_marshal (inr body) h = by_publish body h (nats_publish (subject_for_client to) body) refl

  parse-Sent :
      (old : List (List ℕ × List ℕ)) (size max_size total now : ℕ) (s : Session)
      → s.published ≡ old
      → length s.buf ≡ size
      → total ≤ length s.buf
      → min_message_size ≤ total
      → total ≤ max_size
      → Ensures
          (λ _. Sent old max_size now)
          (Unsent old size)
          (parse marshal nats_publish pub_key_hex total now s.buf s)
  unfolding parse
  parse-Sent old size max_size total now s p q h k l =
      let to = take 64 s.buf in
      let id_len = be (slice 64 66 s.buf) in
      elim (Bool-cases (is_valid_hex_pub_key to)) [
        | inr bad ↦ rw bad (p, q)
        | inl valid ↦ rw valid (elim (Bool-cases (ltb max_msg_id_len id_len)) [
          | inl bad ↦ rw bad (p, q)
          | inr id_ok ↦ rw id_ok (elim (Bool-cases (ltb total (66 + id_len))) [
            | inl bad ↦ rw bad (p, q)
            | inr total_ok ↦ rw total_ok (
                send-Sent old size max_size now to (slice 66 (66 + id_len) s.buf)
                  (slice (66 + id_len) total s.buf) s p q valid
                  (omega (
                    tests,
                    id_ok,
                    length-take (66 + id_len - 66) (drop 66 s.buf),
                    length-drop 66 s.buf,
                  ))
                  (omega (
                    tests,
                    total_ok,
                    is_valid_length to valid,
                    length-take (66 + id_len - 66) (drop 66 s.buf),
                    length-drop 66 s.buf,
                    length-take (total - (66 + id_len)) (drop (66 + id_len) s.buf),
                    length-drop (66 + id_len) s.buf,
                  )))
          ])
        ])
      ]

  receive-Sent :
      (max_size now total : ℕ) (s : Session)
      → Ensures
          (λ _. Sent s.published max_size now)
          (Unsent s.published (length s.buf))
          (receive marshal nats_publish pub_key_hex max_size now total s)
  unfolding receive
  receive-Sent max_size now total s = elim (Bool-cases (ltb (max_size % 2 ^ 32) total)) [
    | inl bad ↦ rw bad (refl, refl)
    | inr max_ok ↦ rw max_ok (elim (Bool-cases (ltb total min_message_size)) [
      | inl bad ↦ rw bad (refl, refl)
      | inr min_ok ↦ rw min_ok (elim (Bool-cases (ltb (length s.buf) total)) [
        | inl bad ↦ rw bad (refl, refl)
        | inr buf_ok ↦ rw buf_ok (
            Ensures-and_then (λ _. Kept s tt) (λ _. Sent s.published max_size now)
              (Unsent s.published (length s.buf))
              (wrap_outcome "read message body" (read_into total s)) _
              (Ensures-wrap _ (Unsent s.published (length s.buf)) _ "read message body"
                (read_into total s) (λ e s' u. u) (read_into-Kept total s))
              (λ a s' k.
                parse-Sent s.published (length s.buf) max_size total now s' k.0 k.1
                  (omega (tests, buf_ok)) (omega (tests, min_ok)) (omega (tests, max_ok))))
      ])
    ])
  ]

  -- Whatever a client sends and in whatever state its buffer is, one call of handleMessage that
  -- returns without an error has published exactly one message, `Sent`; one that returns an error has
  -- published nothing.
  pub handle_message-Sent :
      (max_size now : ℕ) (s : Session)
      → Ensures
          (λ _. Sent s.published max_size now)
          (Unsent s.published (length s.buf))
          (handle_message marshal nats_publish pub_key_hex max_size now s)
  unfolding handle_message
  handle_message-Sent max_size now s =
      Ensures-and_then (λ _. Kept s tt) (λ _. Sent s.published max_size now)
        (Unsent s.published (length s.buf)) (wrap_outcome "read length" (read_into 4 s)) _
        (Ensures-wrap _ (Unsent s.published (length s.buf)) _ "read length" (read_into 4 s)
          (λ e s' u. u) (read_into-Kept 4 s))
        (λ a s' k.
          subst₂
            (λ o n.
              Ensures (λ _. Sent o max_size now) (Unsent o n)
                (receive marshal nats_publish pub_key_hex max_size now (be (take 4 s'.buf)) s'))
            k.0 k.1 (receive-Sent max_size now (be (take 4 s'.buf)) s'))
