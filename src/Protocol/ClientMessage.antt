-- ===== src/Protocol/ClientMessage.antt =====
-- ClientMessage of pkg/protocol/data.go. To and MsgID are strings: lists of bytes.
use sprut.Base.{
  ltb→le, append-nil, ==_iff, refl, inl, inr, Bool-cases, take-append_seam, drop-append_seam, ◌%◌,
  drop, take, ◌∷◌, [], ◌==◌, ◌^◌, ltb, not, ◌+◌, ◌≤◌, length-append, le→ltb, arith, ◌*◌, ◌++◌, ◌≡◌,
  ℕ, List, length,
}
use sprut.Io.{
  err, ok, Error, return, write, message, read_full, fail_if, wrapping, ◌>>◌, ◌>>=◌, Writer, Reader,
  Proc,
}
use sprut.Io.Writes.{write-Writes, wrapping-Writes, then-Writes, Writes}
use sprut.Bytes.{be-put_be, be, length-put_be, put_be}
use sprut.Protocol.Transmits.{pass-Reads, Transmits, pass-Writes}
use sprut.Protocol.{max_message_size, max_msg_id_len, public_key_size}
use native.Mathlib.Nat.{mod-eq_of_lt}
use sprut.Io.Reads.{read_full-Reads, wrapping-Reads, reader, bind-Reads, Reads}

pub record ClientMessage : Type 0 where
  pub to : List ℕ
  pub msg_id : List ℕ
  pub payload : List ℕ

-- `PublicKeySize*2 + 2 + len(msgIDBytes) + len(m.Payload)`
abbrev pub total_len : ClientMessage → ℕ
total_len m = public_key_size * 2 + 2 + length m.msg_id + length m.payload

abbrev bad_to : ClientMessage → Error
bad_to m = message "invalid to length: expected %d, got %d" (public_key_size * 2 ∷ length m.to ∷ [])

abbrev bad_msg_id : ClientMessage → Error
bad_msg_id m = message "msg_id too long: %d > %d" (length m.msg_id ∷ max_msg_id_len ∷ [])

abbrev bad_total : ClientMessage → Error
bad_total m = message "message too large: %d > %d" (total_len m ∷ max_message_size ∷ [])

unfoldable pub encode : ClientMessage → Proc Writer (Unit {0})
encode m = do
  fail_if (not (length m.to == public_key_size * 2)) (bad_to m)
  fail_if (ltb max_msg_id_len (length m.msg_id)) (bad_msg_id m)
  fail_if (ltb max_message_size (total_len m)) (bad_total m)
  wrapping "write total len" (write (put_be 4 (total_len m % 2 ^ 32)))
  wrapping "write to" (write m.to)
  wrapping "write msg_id len" (write (put_be 2 (length m.msg_id % 2 ^ 16)))
  wrapping "write msg_id" (write m.msg_id)
  wrapping "write payload" (write m.payload)

-- What DecodeClientMessage does with the bytes behind the length.
unfoldable pub parse : List ℕ → Proc Reader ClientMessage
parse body = do
  fail_if (ltb (length body) (public_key_size * 2 + 2)) (message "message too short" [])
  let to = take (public_key_size * 2) body
  let body = drop (public_key_size * 2) body
  let msg_id_len = be (take 2 body)
  let body = drop 2 body
  fail_if (ltb (length body) msg_id_len) (message "invalid msg_id length" [])
  return (record { to = to; msg_id = take msg_id_len body; payload = drop msg_id_len body })

unfoldable pub decode : Proc Reader ClientMessage
unfolding parse
decode = do
  len_buf ← wrapping "read total len" (read_full 4)
  fail_if (ltb max_message_size (be len_buf))
      (message "message too large: %d > %d" (be len_buf ∷ max_message_size ∷ []))
  body ← wrapping "read message data" (read_full (be len_buf))
  parse body

-- What `encode` accepts.
pub record IsSendable (m : ClientMessage) : Type 0 where
  pub to_len : length m.to ≡ public_key_size * 2
  pub msg_id_fits : length m.msg_id ≤ max_msg_id_len
  pub total_fits : total_len m ≤ max_message_size

abbrev pub body : ClientMessage → List ℕ
body m = m.to ++ (put_be 2 (length m.msg_id) ++ (m.msg_id ++ m.payload))

abbrev pub frame : ClientMessage → List ℕ
frame m = put_be 4 (total_len m) ++ body m

pub length-body : (m : ClientMessage) → length m.to ≡ 64 → length (body m) ≡ total_len m
length-body m h = omega (
  arith,
  length-append m.to (put_be 2 (length m.msg_id) ++ (m.msg_id ++ m.payload)),
  length-append (put_be 2 (length m.msg_id)) (m.msg_id ++ m.payload),
  length-append m.msg_id m.payload,
  length-put_be 2 (length m.msg_id),
)

encode-Writes : (m : ClientMessage) → IsSendable m → Writes (frame m) (encode m)
unfolding encode
encode-Writes m s = pass-Writes _ _ _ _ (rw s.to_len) (
    pass-Writes _ _ _ _ (le→ltb _ _ s.msg_id_fits) (
      pass-Writes _ _ _ _ (le→ltb _ _ s.total_fits) (
        rw (mod-eq_of_lt {n = total_len m} {m = 2 ^ 32} (omega (arith, s.total_fits))) (
          rw (mod-eq_of_lt {n = length m.msg_id} {m = 2 ^ 16} (omega (arith, s.msg_id_fits))) (
            then-Writes (put_be 4 (total_len m)) _ _ _
              (wrapping-Writes "write total len" _ _ (write-Writes _))
              (then-Writes m.to _ _ _ (wrapping-Writes "write to" _ _ (write-Writes _)) (
                then-Writes (put_be 2 (length m.msg_id)) _ _ _
                  (wrapping-Writes "write msg_id len" _ _ (write-Writes _))
                  (then-Writes m.msg_id _ _ _ (wrapping-Writes "write msg_id" _ _ (write-Writes _))
                    (wrapping-Writes "write payload" _ _ (write-Writes _))))))))))

parse-body :
    (m : ClientMessage) (r : Reader)
    → length m.to ≡ public_key_size * 2
    → length m.msg_id ≤ max_msg_id_len
    → parse (body m) r ≡ ok m r
unfolding parse
parse-body m r h k = rw (le→ltb (length (body m)) 66 (omega (arith, length-body m h))) (
    rw (drop-append_seam 64 m.to (put_be 2 (length m.msg_id) ++ (m.msg_id ++ m.payload)) h) (
      rw
        (take-append_seam 2 (put_be 2 (length m.msg_id)) (m.msg_id ++ m.payload)
          (length-put_be 2 (length m.msg_id)))
        (rw
          (drop-append_seam 2 (put_be 2 (length m.msg_id)) (m.msg_id ++ m.payload)
            (length-put_be 2 (length m.msg_id)))
          (rw (be-put_be 2 (length m.msg_id) (omega arith)) (
            rw
              (le→ltb (length (m.msg_id ++ m.payload)) (length m.msg_id)
                (omega (arith, length-append m.msg_id m.payload)))
              (rw
                (take-append_seam 64 m.to (put_be 2 (length m.msg_id) ++ (m.msg_id ++ m.payload)) h)
                (rw
                  (
                    take-append_seam (length m.msg_id) m.msg_id m.payload refl,
                    drop-append_seam (length m.msg_id) m.msg_id m.payload refl,
                  )
                  refl)))))))

parse-Reads :
    (m : ClientMessage)
    → length m.to ≡ public_key_size * 2
    → length m.msg_id ≤ max_msg_id_len
    → Reads [] m (parse (body m))
parse-Reads m h k = record {
  whole = λ rest e. parse-body m (reader rest e) h k;
  part = λ n e l. absurd (omega arith);
}

decode-Reads : (m : ClientMessage) → IsSendable m → Reads (frame m) m decode
unfolding decode
decode-Reads m s =
    bind-Reads (put_be 4 (total_len m)) (body m) (put_be 4 (total_len m)) m _ _
      (wrapping-Reads "read total len" _ _ _ (read_full-Reads _ _ (length-put_be 4 _)))
      (rw (be-put_be 4 (total_len m) (omega (arith, s.total_fits))) (
        pass-Reads _ _ _ _ _ (le→ltb _ _ s.total_fits) (
          rw append-nil at (
            bind-Reads (body m) [] (body m) m _ parse
              (wrapping-Reads "read message data" _ _ _
                (read_full-Reads _ _ (length-body m s.to_len)))
              (parse-Reads m s.to_len s.msg_id_fits)))))

-- A message whose recipient has 64 bytes, whose id has at most 256 and whose whole length is at most
-- 64 KB is written as its length, the recipient, the length of the id, the id and the payload, and
-- the same message is read back.
pub ClientMessage-Transmits :
    (m : ClientMessage) → IsSendable m → Transmits [] (frame m) m (encode m) decode
ClientMessage-Transmits m s = record { written = encode-Writes m s; read = decode-Reads m s }

-- Any other message is refused before a byte is written.
client_message_refused :
    (m : ClientMessage) (w : Writer) → ¬ IsSendable m → (e : Error) × (encode m w ≡ err e w)
unfolding encode
client_message_refused m w h = elim (Bool-cases (length m.to == public_key_size * 2)) [
  | inr bad ↦ (bad_to m, rw bad)
  | inl to_ok ↦ elim (Bool-cases (ltb max_msg_id_len (length m.msg_id))) [
    | inl bad ↦ (bad_msg_id m, rw (to_ok, bad))
    | inr id_ok ↦ elim (Bool-cases (ltb max_message_size (total_len m))) [
      | inl bad ↦ (bad_total m, rw (to_ok, id_ok, bad))
      | inr total_ok ↦ absurd (
          h (record {
            to_len = (==_iff _ _).0 to_ok;
            msg_id_fits = ltb→le _ _ id_ok;
            total_fits = ltb→le _ _ total_ok;
          }))
    ]
  ]
]
