-- ===== src/Protocol/AuthResult.antt =====
-- AuthResult of pkg/protocol/auth.go. ErrorMsg is a string, that is, a list of bytes.
use sprut.Base.{
  refl, le→ltb, ◌∷◌, ◌^◌, ◌%◌, ltb→le, take_all, sym, inr, length-take, ◌++◌, inl, arith, [], ◌≤◌,
  Bool-cases, take, ltb, ◌==◌, length, if◌then◌else◌, ◌≡◌, ℕ, List,
}
use sprut.Io.{
  message, fail_if, read_full, write, wrapping, ◌>>=◌, ◌>>◌, return, Writer, Reader, Proc,
}
use sprut.Protocol.{type_auth_result, max_error_msg_len, auth_status_ok}
use sprut.Bytes.{be-put_be, length-put_be, be, put_be}
use sprut.Protocol.Transmits.{
  finish-Reads, pass-Reads, read_message_type-Reads, Transmits, read_message_type,
}
use sprut.Io.Writes.{write-Writes, wrapping-Writes, return-Writes, then-Writes, Writes}
use sprut.Io.Reads.{read_full-Reads, wrapping-Reads, bind-Reads, return-Reads, Reads}
use native.Mathlib.Nat.{mod-eq_of_lt}

pub record AuthResult : Type 0 where
  pub status : ℕ
  pub error_msg : List ℕ

-- `if len(errBytes) > MaxErrorMsgLen { errBytes = errBytes[:MaxErrorMsgLen] }`
unfoldable pub clip : List ℕ → List ℕ
clip msg = if ltb max_error_msg_len (length msg) then take max_error_msg_len msg else msg

unfoldable pub encode_error : List ℕ → Proc Writer (Unit {0})
encode_error bytes = do
  wrapping "write error len" (write (put_be 2 (length bytes % 2 ^ 16)))
  wrapping "write error msg" (write bytes)

unfoldable pub encode : AuthResult → Proc Writer (Unit {0})
unfolding clip encode_error
encode m = do
  wrapping "write type" (write (type_auth_result ∷ []))
  wrapping "write status" (write (m.status ∷ []))
  if m.status == auth_status_ok then return tt else encode_error (clip m.error_msg)

unfoldable pub decode_error : ℕ → Proc Reader AuthResult
decode_error status = do
  len_buf ← wrapping "read error len" (read_full 2)
  fail_if (ltb max_error_msg_len (be len_buf))
      (message "error message too long: %d" (be len_buf ∷ []))
  error_msg ← wrapping "read error msg" (read_full (be len_buf))
  return (record { status = status; error_msg = error_msg })

unfoldable pub decode_status : ℕ → Proc Reader AuthResult
unfolding decode_error
decode_status status =
    if status == auth_status_ok
    then return (record { status = status; error_msg = [] })
    else decode_error status

unfoldable pub decode : Proc Reader AuthResult
unfolding decode_status
decode = do status ← wrapping "read status" read_message_type; decode_status status

-- What reaches the reader: a success carries no text, and a longer text is cut.
abbrev pub received : AuthResult → AuthResult
received m =
    if m.status == auth_status_ok
    then record { status = m.status; error_msg = [] }
    else record { status = m.status; error_msg = take max_error_msg_len m.error_msg }

abbrev pub error_body : AuthResult → List ℕ
error_body m =
    if m.status == auth_status_ok
    then []
    else put_be 2 (length (take max_error_msg_len m.error_msg))
      ++ take max_error_msg_len m.error_msg

clip-take : (msg : List ℕ) → clip msg ≡ take max_error_msg_len msg
unfolding clip
clip-take msg = elim (Bool-cases (ltb max_error_msg_len (length msg))) [
  | inl long ↦ rw long
  | inr short ↦ rw short (sym (take_all _ msg (ltb→le _ _ short)))
]

length-clip : (msg : List ℕ) → length (take max_error_msg_len msg) ≤ max_error_msg_len
length-clip msg = omega (arith, length-take max_error_msg_len msg)

-- The two branches on the status, written and read.
text-Writes :
    (m : AuthResult)
    → Writes
        (error_body m)
        (if m.status == auth_status_ok then return tt else encode_error (clip m.error_msg))
unfolding encode_error
text-Writes m = elim (Bool-cases (m.status == auth_status_ok)) [
  | inl good ↦ rw good return-Writes
  | inr bad ↦ rw bad (
      rw (clip-take m.error_msg) (
        rw
          (mod-eq_of_lt {n = length (take max_error_msg_len m.error_msg)} {m = 2 ^ 16}
            (omega (arith, length-clip m.error_msg)))
          (then-Writes (put_be 2 (length (take max_error_msg_len m.error_msg))) _ _ _
            (wrapping-Writes "write error len" _ _ (write-Writes _))
            (wrapping-Writes "write error msg" _ _ (write-Writes _)))))
]

text-Reads : (m : AuthResult) → Reads (error_body m) (received m) (decode_status m.status)
unfolding decode_status decode_error
text-Reads m = elim (Bool-cases (m.status == auth_status_ok)) [
  | inl good ↦ rw good (return-Reads _)
  | inr bad ↦
      let msg = take max_error_msg_len m.error_msg in
      rw bad (
        bind-Reads (put_be 2 (length msg)) msg (put_be 2 (length msg)) _ _ _
          (wrapping-Reads "read error len" _ _ _ (read_full-Reads _ _ (length-put_be 2 _)))
          (rw (be-put_be 2 (length msg) (omega (arith, length-clip m.error_msg))) (
            pass-Reads _ _ _ _ _ (le→ltb _ _ (length-clip m.error_msg)) (
              finish-Reads msg msg _ _ _ refl
                (wrapping-Reads "read error msg" _ _ _ (read_full-Reads _ _ refl))))))
]

-- A result is written as its type, its status and, unless the status is OK, the length and the bytes
-- of its text, cut to 1024 bytes. What is read back is `received m`: a success without a text, a
-- failure with the cut one.
pub AuthResult-Transmits :
    (m : AuthResult)
    → Transmits (type_auth_result ∷ []) (m.status ∷ error_body m) (received m) (encode m) decode
unfolding encode decode
AuthResult-Transmits m = record {
  written =
      then-Writes (type_auth_result ∷ []) _ _ _ (wrapping-Writes "write type" _ _ (write-Writes _))
        (then-Writes (m.status ∷ []) (error_body m) _ _
          (wrapping-Writes "write status" _ _ (write-Writes _)) (text-Writes m));
  read =
      bind-Reads (m.status ∷ []) (error_body m) m.status (received m) _ _
        (wrapping-Reads "read status" _ _ _ (read_message_type-Reads m.status)) (text-Reads m);
}
