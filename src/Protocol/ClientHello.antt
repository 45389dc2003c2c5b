-- ===== src/Protocol/ClientHello.antt =====
-- ClientHello of pkg/protocol/auth.go. PubKey is a byte array: a list of `public_key_size` bytes.
use sprut.Base.{refl, ◌≡◌, length, ℕ, List, [], ◌∷◌}
use sprut.Io.{Proc, ◌>>=◌, ◌>>◌, return, wrapping, Reader, read_full, Writer, write}
use sprut.Io.Writes.{write-Writes, wrapping-Writes, then-Writes}
use sprut.Protocol.Transmits.{Transmits, finish-Reads}
use sprut.Protocol.{type_client_hello, public_key_size}
use sprut.Io.Reads.{read_full-Reads, wrapping-Reads}

pub record ClientHello : Type 0 where
  pub pub_key : List ℕ

unfoldable pub encode : ClientHello → Proc Writer (Unit {0})
encode m = do
  wrapping "write type" (write (type_client_hello ∷ []))
  wrapping "write pubkey" (write m.pub_key)

unfoldable pub decode : Proc Reader ClientHello
decode = do
  pub_key ← wrapping "read pubkey" (read_full public_key_size)
  return (record { pub_key = pub_key })

-- A hello with a key of 32 bytes is written as its type and the key, and the key is read back.
pub ClientHello-Transmits :
    (m : ClientHello)
    → length m.pub_key ≡ public_key_size
    → Transmits (type_client_hello ∷ []) m.pub_key m (encode m) decode
unfolding encode decode
ClientHello-Transmits m h = record {
  written =
      then-Writes (type_client_hello ∷ []) m.pub_key _ _
        (wrapping-Writes "write type" _ _ (write-Writes _))
        (wrapping-Writes "write pubkey" _ _ (write-Writes _));
  read =
      finish-Reads m.pub_key m.pub_key _ _ m refl
        (wrapping-Reads "read pubkey" _ _ _ (read_full-Reads public_key_size m.pub_key h));
}
