-- ===== src/Protocol/ServerMessage.antt =====
-- ServerMessage of pkg/protocol/data.go. Data, a marshalled protobuf Message, is a list of bytes.
use sprut.Base.{
  refl, ◌%◌, arith, ltb, ◌^◌, lt→ltb, ◌∷◌, le→ltb, ◌++◌, ◌≡◌, [], ◌<◌, ◌≤◌, ℕ, List, length,
}
use sprut.Io.{
  return, write, read_full, fail_if, wrapping, ◌>>◌, ◌>>=◌, message, err, Reader, Proc, Writer,
}
use sprut.Protocol.{max_message_size}
use sprut.Protocol.Transmits.{finish-Reads, pass-Reads, pass-Writes, Transmits}
use sprut.Bytes.{be-put_be, length-put_be, be, put_be}
use native.Mathlib.Nat.{mod-eq_of_lt}
use sprut.Io.Writes.{write-Writes, wrapping-Writes, then-Writes}
use sprut.Io.Reads.{read_full-Reads, wrapping-Reads, bind-Reads}

pub record ServerMessage : Type 0 where
  pub body : List ℕ

unfoldable pub encode : ServerMessage → Proc Writer (Unit {0})
encode m = do
  fail_if (ltb max_message_size (length m.body))
      (message "message too large: %d > %d" (length m.body ∷ max_message_size ∷ []))
  wrapping "write total len" (write (put_be 4 (length m.body % 2 ^ 32)))
  wrapping "write data" (write m.body)

unfoldable pub decode : Proc Reader ServerMessage
decode = do
  len_buf ← wrapping "read total len" (read_full 4)
  fail_if (ltb max_message_size (be len_buf))
      (message "message too large: %d > %d" (be len_buf ∷ max_message_size ∷ []))
  body ← wrapping "read data" (read_full (be len_buf))
  return (record { body = body })

abbrev pub frame : ServerMessage → List ℕ
frame m = put_be 4 (length m.body) ++ m.body

-- A message of at most 64 KB is written as its length and its data, and is read back.
pub ServerMessage-Transmits :
    (m : ServerMessage)
    → length m.body ≤ max_message_size
    → Transmits [] (frame m) m (encode m) decode
unfolding encode decode
ServerMessage-Transmits m h = record {
  written = pass-Writes _ _ _ _ (le→ltb _ _ h) (
      rw (mod-eq_of_lt {n = length m.body} {m = 2 ^ 32} (omega arith)) (
        then-Writes (put_be 4 (length m.body)) m.body _ _
          (wrapping-Writes "write total len" _ _ (write-Writes _))
          (wrapping-Writes "write data" _ _ (write-Writes _))));
  read =
      bind-Reads (put_be 4 (length m.body)) m.body (put_be 4 (length m.body)) m _ _
        (wrapping-Reads "read total len" _ _ _ (read_full-Reads _ _ (length-put_be 4 _)))
        (rw (be-put_be 4 (length m.body) (omega arith)) (
          pass-Reads _ _ _ _ _ (le→ltb _ _ h) (
            finish-Reads m.body m.body _ _ m refl
              (wrapping-Reads "read data" _ _ _ (read_full-Reads _ _ refl)))));
}

-- A longer one is refused, and nothing is written.
pub server_message_too_large :
    (m : ServerMessage) (w : Writer)
    → max_message_size < length m.body
    → encode m w
      ≡ err (message "message too large: %d > %d" (length m.body ∷ max_message_size ∷ [])) w
unfolding encode
server_message_too_large m w h = rw (lt→ltb _ _ h)
