-- ===== src/Examples/Protocol.antt =====
-- pkg/protocol at concrete inputs.
use sprut.Protocol.ClientMessage.{ClientMessage, IsSendable, ClientMessage-Transmits}
use sprut.Protocol.ClientMessage
use sprut.Protocol.SignedData.{Fields, signed, build_signed_data_to, build_signed_data_to_lem}
use sprut.Base.{take, arith, ◌++◌, [], some, codes, ◌∷◌, ◌≡◌, replicate}
use sprut.Protocol.Transmits.{Transmits}
use sprut.Protocol.SignedData.Injective.{build_signed_data_to-injective}

abbrev hello_message : ClientMessage
hello_message = record { to = replicate 64 b'a'; msg_id = codes "id-1"; payload = 1 ∷ 2 ∷ [] }

ClientMessage-Transmits_example :
    Transmits []
      (ClientMessage.frame hello_message)
      hello_message
      (ClientMessage.encode hello_message)
      ClientMessage.decode
ClientMessage-Transmits_example = ClientMessage-Transmits hello_message (omega arith)

abbrev some_fields : Fields
some_fields = record {
  challenge = replicate 32 1;
  timestamp = 1700000000;
  server_id = replicate 32 2;
  client_pub_key = replicate 32 3;
  channel_binding = replicate 32 4;
}

build_signed_data_to_example :
    build_signed_data_to (replicate 150 9) some_fields
    ≡ some (signed some_fields ++ 9 ∷ 9 ∷ [], signed some_fields)
build_signed_data_to_example =
    build_signed_data_to_lem (replicate 150 9) some_fields (omega arith) (omega arith)

build_signed_data_to-injective_example :
    (take 12 (signed some_fields) ≡ codes "goro-auth-v1")
    × (some_fields.challenge ≡ some_fields.challenge)
    × (some_fields.timestamp ≡ some_fields.timestamp)
    × (some_fields.server_id ≡ some_fields.server_id)
    × (some_fields.client_pub_key ≡ some_fields.client_pub_key)
    × (some_fields.channel_binding ≡ some_fields.channel_binding)
unfolding sprut.Bytes.put_be
build_signed_data_to-injective_example =
    build_signed_data_to-injective some_fields some_fields (replicate 150 9) (replicate 149 8)
      (signed some_fields ++ 9 ∷ 9 ∷ []) (signed some_fields ++ 8 ∷ []) (signed some_fields)
      (omega arith) (omega arith) (omega arith) (omega arith)
      (build_signed_data_to_lem (replicate 150 9) some_fields (omega arith) (omega arith))
      (build_signed_data_to_lem (replicate 149 8) some_fields (omega arith) (omega arith))
