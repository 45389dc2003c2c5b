-- ===== src/Client/Loops/Beginning.antt =====
-- DecodeServerMessage of pkg/protocol/data.go on a stream that ends anywhere.
use mathlib.Core.Path.{ap, sym, subst}
use sprut.Base.{
  cut_short, leb→lt, lt→ltb, ltb→le, leb→le, arith, cut_past, ◌∙◌, leb, ltb→lt, ltb, Bool-cases,
  ◌⊎◌, refl, ◌++◌, ◌≡◌, ◌^◌, ℕ, [], inl, inr, List, length, ◌<◌, ◌≤◌, append_assoc,
}
use sprut.Io.{wrapping, Reader, read_full, Error, Outcome, ok, err}
use sprut.Protocol.ServerMessage
use sprut.Protocol.ServerMessage.{ServerMessage}
use sprut.Io.Reads.{read_full-Reads, wrapping-Reads, Reads, reader}
use sprut.Protocol.{max_message_size}
use sprut.Bytes.{be-put_be, length-put_be, put_be}

abbrev pub IsFailure : Outcome Reader ServerMessage → Type 0
IsFailure o = (e : Error) × (r : Reader) × (o ≡ err e r)

-- A length beyond 64 KB is an error, wherever the stream ends.
decode-large :
    (body more pre rest : List ℕ) (fin : Error)
    → length body < 2 ^ 32
    → max_message_size < length body
    → pre ++ rest ≡ put_be 4 (length body) ++ more
    → IsFailure (ServerMessage.decode (reader pre fin))
unfolding ServerMessage.decode
decode-large body more pre rest fin small large split = elim (Bool-cases (leb 4 (length pre))) [
  | inl past ↦
      let (left, e, back) =
        cut_past pre head rest more (omega (arith, head_len, leb→le _ _ past)) split in
      subst (λ l. IsFailure (ServerMessage.decode (reader l fin))) (sym e)
        (rw (header.whole left fin)
          (rw (be-put_be 4 (length body) (omega arith)) (rw (lt→ltb _ _ large) (_, _, refl))))
  | inr short ↦
      let (x, r, q) = header.part (length pre) fin (omega (arith, head_len, leb→lt _ _ short)) in
      subst (λ l. IsFailure (ServerMessage.decode (reader l fin)))
        (sym (cut_short pre head rest more (omega (arith, head_len, leb→lt _ _ short)) split))
        (rw q (_, _, refl))
]
  where
    head : List ℕ
    head = put_be 4 (length body)

    head_len : length head ≡ 4
    head_len = length-put_be 4 (length body)

    header : Reads head head (wrapping "read total len" (read_full 4))
    header = wrapping-Reads "read total len" _ _ _ (read_full-Reads 4 head head_len)

pub decode-nil : (fin : Error) → IsFailure (ServerMessage.decode (reader [] fin))
unfolding ServerMessage.decode read_full
decode-nil fin = (_, _, refl)

abbrev pub frame : List ℕ → List ℕ
frame body = ServerMessage.frame (record { body = body })

-- From a stream that is a beginning of a frame and more, the decoder takes the frame's message, or it
-- fails.
pub decode-cases :
    (body more pre rest : List ℕ) (fin : Error)
    → length body < 2 ^ 32
    → pre ++ rest ≡ frame body ++ more
    → ((left : List ℕ) × (left ++ rest ≡ more)
        × (ServerMessage.decode (reader pre fin) ≡ ok (record { body = body }) (reader left fin)))
      ⊎ IsFailure (ServerMessage.decode (reader pre fin))
decode-cases body more pre rest fin small split =
    elim (Bool-cases (ltb max_message_size (length body))) [
      | inl large ↦ inr (
          decode-large body (body ++ more) pre rest fin small (ltb→lt _ _ large)
            (split ∙ append_assoc (put_be 4 (length body)) body more))
      | inr fits ↦ elim (Bool-cases (leb (length (frame body)) (length pre))) [
        | inl past ↦
            let (left, e, back) = cut_past pre (frame body) rest more (leb→le _ _ past) split in
            inl (
              left,
              back,
              ap (λ l. ServerMessage.decode (reader l fin)) e
                  ∙ (reads (ltb→le _ _ fits)).whole left fin,
            )
        | inr short ↦
            let (x, r, q) = (reads (ltb→le _ _ fits)).part (length pre) fin (leb→lt _ _ short) in
            inr (
              x,
              r,
              ap (λ l. ServerMessage.decode (reader l fin))
                    (cut_short pre (frame body) rest more (leb→lt _ _ short) split)
                  ∙ q,
            )
      ]
    ]
  where
    reads :
        length body ≤ max_message_size
        → Reads (frame body) (record { body = body }) ServerMessage.decode
    reads h = (ServerMessage.ServerMessage-Transmits (record { body = body }) h).read
