-- ===== src/Router/Message/Accept.antt =====
-- handleMessage on the bytes that ClientMessage.Encode writes.
use sprut.Protocol.ClientMessage.{ClientMessage, IsSendable, total_len, frame, body, length-body}
use sprut.Router.Message.{
  published_or, marshalled, empty_message, Message, Session, read_into, send, parse, receive,
  handle_message,
}
use Prim.Native.Nat.add
use sprut.Io.{ok, Error}
use sprut.Base.{
  ◌∷◌, none, ◌%◌, length-drop, take-append_seam, inr, refl, length-append, ◌+◌, ap, [], ◌∙◌, ◌^◌,
  arith, le→ltb, take, ◌<◌, drop, true, append_assoc, ◌++◌, ◌≡◌, ◌≤◌, Option, ◌⊎◌, length, List,
}
use Prim.Native.Nat.{ℕ}
use sprut.Protocol.{max_msg_id_len}
use sprut.Router.Hex.{is_valid_hex_pub_key}
use sprut.Bytes.Slices.{slice, slice-parts, copy_at-fits, copy_at}
use sprut.Bytes.{be-put_be, length-put_be, put_be}
use sprut.Io.Reads.{reader, read_full-Reads}
use sprut.Broker.Subject.{subject_for_client}

copy_at_front :
    (src buf : List ℕ) → length src ≤ length buf → copy_at 0 src buf ≡ src ++ drop (length src) buf
copy_at_front src buf h =
    copy_at-fits 0 src buf (omega arith) ∙ ap (λ k. src ++ drop k buf) (add.zero (length src))

-- A session whose client has sent `bytes`.
abbrev pub session : List ℕ → Error → List ℕ → Message → List (List ℕ × List ℕ) → Session
session bytes fin buf pooled published = record {
  reader = reader bytes fin;
  buf = buf;
  pooled = pooled;
  published = published;
}

read_into-whole :
    (n : ℕ) (bs rest : List ℕ) (fin : Error) (buf : List ℕ) (pooled : Message)
    (published : List (List ℕ × List ℕ))
    → length bs ≡ n
    → n ≤ length buf
    → read_into n (session (bs ++ rest) fin buf pooled published)
      ≡ ok tt (session rest fin (bs ++ drop n buf) pooled published)
unfolding read_into
read_into-whole n bs rest fin buf pooled published e h =
    rw (le→ltb (length buf) n h)
      (rw ((read_full-Reads n bs e).whole rest fin) (rw (copy_at_front bs buf (omega arith), e)))

-- What the limits of the server allow.
pub record IsAccepted (m : ClientMessage) (max_size : ℕ) (buf : List ℕ) : Type 0 where
  pub sendable : IsSendable m
  pub to_valid : is_valid_hex_pub_key m.to ≡ true
  pub total_fits : total_len m ≤ max_size
  pub max_fits : max_size < 2 ^ 32
  pub buf_fits : total_len m ≤ length buf

-- The buffer behind the first read, and behind the second.
abbrev pub buf_head : ClientMessage → List ℕ → List ℕ
buf_head m buf = put_be 4 (total_len m) ++ drop 4 buf

abbrev pub buf_body : ClientMessage → List ℕ → List ℕ
buf_body m buf = body m ++ drop (total_len m) (buf_head m buf)

length-buf_head :
    (m : ClientMessage) (buf : List ℕ) → 4 ≤ length buf → length (buf_head m buf) ≡ length buf
length-buf_head m buf h = omega (
  arith,
  length-append (put_be 4 (total_len m)) (drop 4 buf),
  length-put_be 4 (total_len m),
  length-drop 4 buf,
)

pub length-buf_body :
    (m : ClientMessage) (buf : List ℕ)
    → length m.to ≡ 64
    → total_len m ≤ length buf
    → length (buf_body m buf) ≡ length buf
length-buf_body m buf t h = omega (
  arith,
  length-append (body m) (drop (total_len m) (buf_head m buf)),
  length-body m t,
  length-drop (total_len m) (buf_head m buf),
  length-buf_head m buf (omega arith),
)

module _ (marshal : Message → Error ⊎ List ℕ) (nats_publish : List ℕ → List ℕ → Option Error)
    (pub_key_hex : List ℕ) where
  -- The Message that goes out for a client's message.
  abbrev pub outgoing : ClientMessage → ℕ → Message
  outgoing m now = record {
    from = pub_key_hex;
    to = m.to;
    id = m.msg_id;
    payload = m.payload;
    unix_date_time = now;
  }

  -- The parts of the buffer behind the second read.
  parse-body :
      (m : ClientMessage) (tail : List ℕ) (now : ℕ) (s : Session)
      → length m.to ≡ 64
      → length m.msg_id ≤ max_msg_id_len
      → is_valid_hex_pub_key m.to ≡ true
      → parse marshal nats_publish pub_key_hex (total_len m) now (body m ++ tail) s
        ≡ send marshal nats_publish pub_key_hex m.to m.msg_id m.payload now s
  unfolding parse
  parse-body m tail now s t h v = rw to_eq (
      rw v (
        rw len_eq (
          rw (be-put_be 2 (length m.msg_id) (omega arith)) (
            rw (le→ltb max_msg_id_len (length m.msg_id) h) (
              rw (le→ltb (total_len m) (66 + length m.msg_id) (omega arith))
                (rw (id_eq, payload_eq) refl))))))
    where
      to_eq : take 64 (body m ++ tail) ≡ m.to
      to_eq =
          slice-parts 0 64 [] m.to ((put_be 2 (length m.msg_id) ++ (m.msg_id ++ m.payload)) ++ tail)
            (simp append_assoc) refl (omega arith)

      len_eq : slice 64 66 (body m ++ tail) ≡ put_be 2 (length m.msg_id)
      len_eq =
          slice-parts 64 66 m.to (put_be 2 (length m.msg_id)) ((m.msg_id ++ m.payload) ++ tail)
            {buf = body m ++ tail} (simp append_assoc) t
            (omega (arith, length-put_be 2 (length m.msg_id)))

      id_eq : slice 66 (66 + length m.msg_id) (body m ++ tail) ≡ m.msg_id
      id_eq =
          slice-parts 66 (66 + length m.msg_id) (m.to ++ put_be 2 (length m.msg_id)) m.msg_id
            (m.payload ++ tail) {buf = body m ++ tail} (simp append_assoc)
            (omega (
              arith,
              length-append m.to (put_be 2 (length m.msg_id)),
              length-put_be 2 (length m.msg_id),
            ))
            (omega arith)

      payload_eq : slice (66 + length m.msg_id) (total_len m) (body m ++ tail) ≡ m.payload
      payload_eq =
          slice-parts (66 + length m.msg_id) (total_len m)
            (m.to ++ (put_be 2 (length m.msg_id) ++ m.msg_id)) m.payload tail {buf = body m ++ tail}
            (simp append_assoc)
            (omega (
              arith,
              length-append m.to (put_be 2 (length m.msg_id) ++ m.msg_id),
              length-append (put_be 2 (length m.msg_id)) m.msg_id,
              length-put_be 2 (length m.msg_id),
            ))
            (omega arith)

  -- The length is read, and it passes the checks; then the rest is read, and its parts are handed to
  -- `send`.
  handle_message-frame :
      (m : ClientMessage) (rest : List ℕ) (fin : Error) (buf : List ℕ) (pooled : Message)
      (published : List (List ℕ × List ℕ)) (max_size now : ℕ)
      → IsAccepted m max_size buf
      → handle_message marshal nats_publish pub_key_hex max_size now
          (session (frame m ++ rest) fin buf pooled published)
        ≡ send marshal nats_publish pub_key_hex m.to m.msg_id m.payload now
            (session rest fin (buf_body m buf) pooled published)
  unfolding handle_message receive
  handle_message-frame m rest fin buf pooled published max_size now a =
      rw (append_assoc (put_be 4 (total_len m)) (body m) rest) (
        rw
          (read_into-whole 4 (put_be 4 (total_len m)) (body m ++ rest) fin buf pooled published
            (length-put_be 4 (total_len m)) (omega (arith, a.buf_fits)))
          (rw (take-append_seam 4 (put_be 4 (total_len m)) (drop 4 buf) (length-put_be 4 _)) (
            rw (be-put_be 4 (total_len m) (omega (arith, a.total_fits, a.max_fits))) (
              rw
                (le→ltb (max_size % 2 ^ 32) (total_len m) (omega (arith, a.total_fits, a.max_fits)))
                (rw (le→ltb (total_len m) 66 (omega arith)) (
                  rw
                    (le→ltb (length (buf_head m buf)) (total_len m)
                      (omega (arith, a.buf_fits, length-buf_head m buf)))
                    (rw
                      (read_into-whole (total_len m) (body m) rest fin (buf_head m buf) pooled
                        published (length-body m a.sendable.to_len)
                        (omega (arith, a.buf_fits, length-buf_head m buf)))
                      (parse-body m (drop (total_len m) (buf_head m buf)) now _ a.sendable.to_len
                        a.sendable.msg_id_fits a.to_valid))))))))

  -- The same, with the buffer that is left.
  pub handle_message-published :
      (m : ClientMessage) (rest : List ℕ) (fin : Error) (buf : List ℕ) (pooled : Message)
      (published : List (List ℕ × List ℕ)) (max_size now : ℕ) (wire : List ℕ)
      → IsAccepted m max_size buf
      → marshal (outgoing m now) ≡ inr wire
      → nats_publish (subject_for_client m.to) wire ≡ none
      → handle_message marshal nats_publish pub_key_hex max_size now
          (session (frame m ++ rest) fin buf pooled published)
        ≡ ok tt (
            session rest fin
              (buf_body m buf)
              empty_message
              (published ++ ((subject_for_client m.to, wire) ∷ [])))
  unfolding send
  handle_message-published m rest fin buf pooled published max_size now wire a e p =
      handle_message-frame m rest fin buf pooled published max_size now a
      ∙ rw (e, marshalled) (rw (p, published_or) refl)

  -- What a client encodes, the server publishes: under its limits the frame of a message that the
  -- client may send, to a valid recipient, is read exactly to its end, and one message is published
  -- under the recipient's subject, with the key of the client that sent it as its sender.
  pub handle_message_accepts :
      (m : ClientMessage) (rest : List ℕ) (fin : Error) (buf : List ℕ) (pooled : Message)
      (published : List (List ℕ × List ℕ)) (max_size now : ℕ) (wire : List ℕ)
      → IsAccepted m max_size buf
      → marshal (outgoing m now) ≡ inr wire
      → nats_publish (subject_for_client m.to) wire ≡ none
      → (buf' : List ℕ) × (handle_message marshal nats_publish pub_key_hex max_size now
            (session (frame m ++ rest) fin buf pooled published)
          ≡ ok tt (
              session rest fin buf' empty_message
                (published ++ ((subject_for_client m.to, wire) ∷ []))))
  handle_message_accepts m rest fin buf pooled published max_size now wire a e p = (
    buf_body m buf,
    handle_message-published m rest fin buf pooled published max_size now wire a e p,
  )
