-- ===== src/Client/Auth.antt =====
-- signChallenge of pkg/client/auth.go and authenticate of pkg/client/client.go. ed25519.Sign is a
-- parameter. The bufio.Reader stands for the connection's own stream.
pub mod Honest
use sprut.Protocol.ClientHello
use sprut.Protocol.ServerChallenge
use sprut.Protocol.ServerChallenge.{ServerChallenge}
use sprut.Protocol.ClientResponse
use sprut.Protocol.AuthResult
use sprut.Base.{[], ◌∷◌, ◌==◌, not, inr, ◌+◌, none, inl, some, replicate, ◌⊎◌, Option, List, ℕ}
use sprut.Io.{
  auth_failed, wrap_text, message, fail_if, wrapping, panic, wrap, ◌>>=◌, ◌>>◌, err, ok, Proc,
  Outcome, Error,
}
use sprut.Protocol.ChannelBinding.{get_channel_binding, ConnectionState}
use sprut.Identity.{KeyPair}
use sprut.Bytes.Slices.{copy_at}
use sprut.Io.Conn.{logged, reading, writing, Conn, set_deadline}
use sprut.Protocol.SignedData.{build_signed_data, Fields}
use sprut.Protocol.{
  auth_status_ok, type_auth_result, type_server_challenge, signature_size, public_key_size,
}
use sprut.Protocol.Transmits.{read_message_type}

-- `copy(array[:], bytes)` into a zeroed array.
abbrev pub to_array : ℕ → List ℕ → List ℕ
to_array n bytes = copy_at 0 bytes (replicate n 0)

-- authenticate is given a *tls.Conn: without TLS state there is none.
with_binding : Error ⊎ List ℕ → Proc Conn (List ℕ)
with_binding (inl e) c = err (wrap "get channel binding" e) c
with_binding (inr b) c = ok b c

unfoldable pub connection_binding : ConnectionState → Proc Conn (List ℕ)
unfolding with_binding
connection_binding state = with_binding (get_channel_binding state)

abbrev pub challenge_fields : KeyPair → ServerChallenge → List ℕ → Fields
challenge_fields keys challenge binding = record {
  challenge = challenge.challenge;
  timestamp = challenge.timestamp;
  server_id = challenge.server_id;
  client_pub_key = to_array public_key_size keys.public_key;
  channel_binding = binding;
}

module _ (sign : List ℕ → List ℕ → List ℕ) (keys : KeyPair) (tls : ConnectionState) where
  signed_with : Option (List ℕ × List ℕ) → Proc Conn (List ℕ)
  signed_with none c = err (panic "index out of range") c
  signed_with (some (area, signed_data)) c =
      ok (to_array signature_size (sign keys.private_key signed_data)) c

  unfoldable pub sign_challenge : ServerChallenge → Proc Conn (List ℕ)
  unfolding signed_with connection_binding
  sign_challenge challenge = do
    binding ← connection_binding tls
    signed_with (build_signed_data (challenge_fields keys challenge binding))

  -- Steps 1 to 4.
  unfoldable pub exchange : Proc Conn (Unit {0})
  unfolding sign_challenge
  exchange = do
    wrapping "send client hello" (
        writing
          (ClientHello.encode (record { pub_key = to_array public_key_size keys.public_key })))
    msg_type ← wrapping "read challenge type" (reading read_message_type)
    fail_if (not (msg_type == type_server_challenge))
        (message "unexpected message type: %d" (msg_type ∷ []))
    challenge ← wrapping "decode challenge" (reading ServerChallenge.decode)
    signature ← wrapping "sign challenge" (sign_challenge challenge)
    wrapping "send response" (writing (ClientResponse.encode (record { signature = signature })))
    msg_type ← wrapping "read result type" (reading read_message_type)
    fail_if (not (msg_type == type_auth_result))
        (message "unexpected message type: %d" (msg_type ∷ []))
    result ← wrapping "decode result" (reading AuthResult.decode)
    fail_if (not (result.status == auth_status_ok))
        (wrap_text "%w: %s" result.error_msg auth_failed)

  reset_deadline : Outcome Conn (Unit {0}) → Outcome Conn (Unit {0})
  reset_deadline (ok a c) = ok a (logged (set_deadline none c))
  reset_deadline (err e c) = err e (logged (set_deadline none c))

  timed : Outcome Conn (Unit {0}) → Outcome Conn (Unit {0})
  timed (ok a c) = reset_deadline (exchange c)
  timed (err e c) = err (wrap "set deadline" e) c

  -- `start` is the clock at the call. The bufio.Reader that authenticate makes and drops is the
  -- connection's own stream here: bytes behind the AuthResult that come in the same read would be lost
  -- with it.
  unfoldable pub authenticate : ℕ → ℕ → Proc Conn (Unit {0})
  unfolding timed reset_deadline exchange
  authenticate start timeout c = timed (set_deadline (some (start + timeout)) c)
