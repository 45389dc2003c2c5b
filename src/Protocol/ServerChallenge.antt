-- ===== src/Protocol/ServerChallenge.antt =====
-- ServerChallenge of pkg/protocol/auth.go.
use sprut.Base.{ℕ, ◌≡◌, ◌<◌, ◌^◌, ap, List, [], ◌∷◌, ◌++◌, length}
use sprut.Bytes.{put_be, be, length-put_be, be-put_be}
use sprut.Io.{Proc, ◌>>=◌, ◌>>◌, return, wrapping, Reader, read_full, Writer, write}
use sprut.Io.Writes.{write-Writes, wrapping-Writes, then-Writes}
use sprut.Io.Reads.{read_full-Reads, wrapping-Reads, bind-Reads}
use sprut.Protocol.Transmits.{Transmits, finish-Reads}
use sprut.Protocol.{type_server_challenge, challenge_size, timestamp_size, server_id_size}

pub record ServerChallenge : Type 0 where
  pub challenge : List ℕ
  pub timestamp : ℕ
  pub server_id : List ℕ

-- The sizes of the arrays, and the range of the uint64.
pub record IsSized (m : ServerChallenge) : Type 0 where
  pub challenge_len : length m.challenge ≡ challenge_size
  pub timestamp_fits : m.timestamp < 2 ^ 64
  pub server_id_len : length m.server_id ≡ server_id_size

unfoldable pub encode : ServerChallenge → Proc Writer (Unit {0})
encode m = do
  wrapping "write type" (write (type_server_challenge ∷ []))
  wrapping "write challenge" (write m.challenge)
  wrapping "write timestamp" (write (put_be timestamp_size m.timestamp))
  wrapping "write server_id" (write m.server_id)

unfoldable pub decode : Proc Reader ServerChallenge
decode = do
  challenge ← wrapping "read challenge" (read_full challenge_size)
  ts ← wrapping "read timestamp" (read_full timestamp_size)
  server_id ← wrapping "read server_id" (read_full server_id_size)
  return (record { challenge = challenge; timestamp = be ts; server_id = server_id })

abbrev pub body : ServerChallenge → List ℕ
body m = m.challenge ++ (put_be timestamp_size m.timestamp ++ m.server_id)

-- A challenge is written as its type, the challenge, the timestamp in big-endian order and the
-- server's id, and it is read back from what stands behind the type.
pub ServerChallenge-Transmits :
    (m : ServerChallenge)
    → IsSized m
    → Transmits (type_server_challenge ∷ []) (body m) m (encode m) decode
unfolding encode decode
ServerChallenge-Transmits m s = record {
  written =
      then-Writes (type_server_challenge ∷ []) (body m) _ _
        (wrapping-Writes "write type" _ _ (write-Writes _))
        (then-Writes m.challenge _ _ _ (wrapping-Writes "write challenge" _ _ (write-Writes _)) (
          then-Writes (put_be timestamp_size m.timestamp) m.server_id _ _
            (wrapping-Writes "write timestamp" _ _ (write-Writes _))
            (wrapping-Writes "write server_id" _ _ (write-Writes _))));
  read =
      bind-Reads m.challenge _ m.challenge m _ _
        (wrapping-Reads "read challenge" _ _ _ (read_full-Reads _ _ s.challenge_len))
        (bind-Reads (put_be timestamp_size m.timestamp) m.server_id _ m _ _
          (wrapping-Reads "read timestamp" _ _ _
            (read_full-Reads _ _ (length-put_be timestamp_size m.timestamp)))
          (finish-Reads m.server_id m.server_id _ _ m
            (ap (λ t. record { challenge = m.challenge; timestamp = t; server_id = m.server_id })
              (be-put_be 8 m.timestamp s.timestamp_fits))
            (wrapping-Reads "read server_id" _ _ _ (read_full-Reads _ _ s.server_id_len))));
}
