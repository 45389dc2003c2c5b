-- ===== src/Protocol/ClientResponse.antt =====
-- ClientResponse of pkg/protocol/auth.go.
use sprut.Base.{ℕ, ◌≡◌, refl, List, [], ◌∷◌, length}
use sprut.Io.{Proc, ◌>>=◌, ◌>>◌, return, wrapping, Reader, read_full, Writer, write}
use sprut.Io.Writes.{write-Writes, wrapping-Writes, then-Writes}
use sprut.Io.Reads.{read_full-Reads, wrapping-Reads}
use sprut.Protocol.Transmits.{Transmits, finish-Reads}
use sprut.Protocol.{type_client_response, signature_size}

pub record ClientResponse : Type 0 where
  pub signature : List ℕ

unfoldable pub encode : ClientResponse → Proc Writer (Unit {0})
encode m = do
  wrapping "write type" (write (type_client_response ∷ []))
  wrapping "write signature" (write m.signature)

unfoldable pub decode : Proc Reader ClientResponse
decode = do
  signature ← wrapping "read signature" (read_full signature_size)
  return (record { signature = signature })

-- A response with a signature of 64 bytes is written as its type and the signature, and the
-- signature is read back.
pub ClientResponse-Transmits :
    (m : ClientResponse)
    → length m.signature ≡ signature_size
    → Transmits (type_client_response ∷ []) m.signature m (encode m) decode
unfolding encode decode
ClientResponse-Transmits m h = record {
  written =
      then-Writes (type_client_response ∷ []) m.signature _ _
        (wrapping-Writes "write type" _ _ (write-Writes _))
        (wrapping-Writes "write signature" _ _ (write-Writes _));
  read =
      finish-Reads m.signature m.signature _ _ m refl
        (wrapping-Reads "read signature" _ _ _ (read_full-Reads _ _ h));
}
