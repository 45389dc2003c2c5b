-- ===== src/Router/Message.antt =====
-- handleMessage of pkg/router/message.go, with Publisher.Publish of pkg/broker/publisher.go.
-- proto.Marshal and the Publish of a NATS connection are parameters.
pub mod Accept
pub mod Consumes
pub mod Safety
use sprut.Base.{
  none, ◌^◌, some, not, ◌%◌, inr, ◌∷◌, length, ◌++◌, ltb, ◌+◌, take, inl, Option, if◌then◌else◌,
  ◌*◌, ◌⊎◌, List, ℕ, [],
}
use sprut.Io.{
  message, wrap_text, read_full, panic, wrap, fail_if, wrapping, err, ◌>>◌, ok, Proc, Outcome,
  Reader, Error,
}
use sprut.Protocol.{max_msg_id_len, public_key_size}
use sprut.Bytes.Slices.{slice, copy_at}
use sprut.Broker.Subject.{subject_for_client}
use sprut.Bytes.{be}
use sprut.Router.Hex.{is_valid_hex_pub_key}

-- The fields of the protobuf Message (pkg/message/message.proto).
pub record Message : Type 0 where
  pub from : List ℕ
  pub to : List ℕ
  pub id : List ℕ
  pub payload : List ℕ
  pub unix_date_time : ℕ

abbrev pub empty_message : Message
empty_message = record { from = []; to = []; id = []; payload = []; unix_date_time = 0 }

-- What handling one message changes: the connection, the buffer that the pool lends, the pooled
-- Message, and the messages that NATS has taken (subject and data).
pub record Session : Type 0 where
  pub reader : Reader
  pub buf : List ℕ
  pub pooled : Message
  pub published : List (List ℕ × List ℕ)

-- `To (64 hex chars) + MsgIDLen (2 bytes)`
abbrev pub min_message_size : ℕ
min_message_size = public_key_size * 2 + 2

-- `io.ReadFull(peer.conn, buf[:n])`: the slice panics beyond the buffer, and what was read before an
-- error is in the buffer.
received_into : List ℕ → Session → Outcome Reader (List ℕ) → Outcome Session (Unit {0})
received_into pending s (ok bytes r) = ok tt (record s { reader = r; buf = copy_at 0 bytes s.buf })
received_into pending s (err e r) = err e (record s { reader = r; buf = copy_at 0 pending s.buf })

unfoldable pub read_into : ℕ → Proc Session (Unit {0})
unfolding received_into
read_into n s =
    if ltb (length s.buf) n
    then err (panic "slice bounds out of range") s
    else received_into (take n s.reader.pending) s (read_full n s.reader)

-- The values that a later step reads from the buffer.
abbrev pub with_buf {ℓ} : {A : Type ℓ} → (List ℕ → Proc Session A) → Proc Session A
with_buf f s = f s.buf s

module _ (marshal : Message → Error ⊎ List ℕ) (nats_publish : List ℕ → List ℕ → Option Error)
    (pub_key_hex : List ℕ) where
  -- Publisher.Publish.
  published_or : List ℕ → List ℕ → Option Error → Proc Session (Unit {0})
  published_or subject body none s =
      ok tt (record s { published = s.published ++ ((subject, body) ∷ []) })
  published_or subject body (some e) s = err (wrap_text "publish to %s" subject e) s

  unfoldable pub publish : List ℕ → List ℕ → Proc Session (Unit {0})
  unfolding published_or
  publish to body =
      let subject = subject_for_client to in published_or subject body (nats_publish subject body)

  -- Steps 6 and 7: serialise and publish.
  marshalled : List ℕ → Error ⊎ List ℕ → Proc Session (Unit {0})
  marshalled to (inl e) s = err (wrap "marshal message" e) s
  marshalled to (inr body) s = wrapping "publish to NATS" (publish to body) s

  -- The deferred `msg.Reset()`, on every way out.
  reset : Outcome Session (Unit {0}) → Outcome Session (Unit {0})
  reset (ok a s) = ok a (record s { pooled = empty_message })
  reset (err e s) = err e (record s { pooled = empty_message })

  -- Steps 5 to 7: fill the pooled message in, serialise it, publish it.
  unfoldable pub send : List ℕ → List ℕ → List ℕ → ℕ → Proc Session (Unit {0})
  unfolding marshalled reset publish
  send to msg_id payload now s =
      let msg : Message = record {
        from = pub_key_hex;
        to = to;
        id = msg_id;
        payload = payload;
        unix_date_time = now;
      } in
      reset (marshalled to (marshal msg) (record s { pooled = msg }))

  -- Steps 3 and 4, on the buffer that holds `total` bytes of a message.
  unfoldable pub parse : ℕ → ℕ → List ℕ → Proc Session (Unit {0})
  parse total now buf = do
    let to = take (public_key_size * 2) buf
    fail_if (not (is_valid_hex_pub_key to)) (message "invalid recipient pubkey format" [])
    let msg_id_len = be (slice (public_key_size * 2) (public_key_size * 2 + 2) buf)
    fail_if (ltb max_msg_id_len msg_id_len) (message "msgID too long: %d" (msg_id_len ∷ []))
    let msg_id_start = public_key_size * 2 + 2
    let msg_id_end = msg_id_start + msg_id_len
    fail_if (ltb total msg_id_end)
        (message "invalid message structure: msgID exceeds total length" [])
    send to (slice msg_id_start msg_id_end buf) (slice msg_id_end total buf) now

  -- Step 2, behind the length.
  unfoldable pub receive : ℕ → ℕ → ℕ → Proc Session (Unit {0})
  unfolding parse
  receive max_size now total = do
    fail_if (ltb (max_size % 2 ^ 32) total) (message "message too large: %d bytes" (total ∷ []))
    fail_if (ltb total min_message_size)
        (message "message too small: %d bytes, minimum %d" (total ∷ min_message_size ∷ []))
    with_buf (λ buf.
        fail_if (ltb (length buf) total) (message "message too large for buffer: %d" (total ∷ [])))
    wrapping "read message body" (read_into total)
    with_buf (parse total now)

  -- `max_size` is the configured maximum, an int that the code converts to uint32; `now` is the time
  -- of the call in seconds.
  unfoldable pub handle_message : ℕ → ℕ → Proc Session (Unit {0})
  unfolding receive
  handle_message max_size now = do
    wrapping "read length" (read_into 4)
    with_buf (λ buf. receive max_size now (be (take 4 buf)))
