-- ===== src/Client/Auth/Honest.antt =====
-- authenticate of the client against a server that answers as it should.
use sprut.Client.Auth.{
  reset_deadline, timed, signed_with, with_binding, connection_binding, exchange, authenticate,
  to_array, sign_challenge, challenge_fields,
}
use sprut.Protocol.ClientHello
use sprut.Protocol.ServerChallenge
use sprut.Protocol.ServerChallenge.{ServerChallenge}
use sprut.Protocol.ClientResponse
use sprut.Protocol.AuthResult
use sprut.Base.{
  refl, append_assoc, length-append, ◌+◌, arith, none, ◌∙◌, replicate, ap, drop, some, ◌≤◌, false,
  length, inr, ◌≡◌, [], ◌++◌, ◌∷◌, ℕ, List,
}
use sprut.Identity.{KeyPair}
use sprut.Protocol.ChannelBinding.{get_channel_binding, ConnectionState}
use sprut.Protocol.{
  auth_status_ok, type_client_response, type_auth_result, public_key_size, type_client_hello,
  signature_size, type_server_challenge,
}
use sprut.Protocol.SignedData.{
  IsSized, build_signed_data_to_lem, signed_data_size, Fields, build_signed_data, signed,
}
use sprut.Io.Conn.{reading-Reads, reading, writing-Writes, logged, writing, set_deadline-open, Conn}
use sprut.Io.{push, ok}
use sprut.Io.Ensures.{wrap_outcome-ok, and_then-ok}
use sprut.Io.Reads.{reader}
use sprut.Bytes.Slices.{length-copy_at}
use sprut.Protocol.Transmits.{read_message_type-Reads, read_message_type}
use sprut.Io.Writes.{push-push}

build_signed_data_lem :
    (f : Fields)
    → IsSized f
    → build_signed_data f
      ≡ some (signed f ++ drop signed_data_size (replicate signed_data_size 0), signed f)
unfolding build_signed_data
build_signed_data_lem f sized =
    build_signed_data_to_lem (replicate signed_data_size 0) f sized (omega arith)

module _ (sign : List ℕ → List ℕ → List ℕ) (keys : KeyPair) (tls : ConnectionState)
    (challenge : ServerChallenge) (binding : List ℕ) where
  -- The client's answer to a challenge.
  abbrev pub answer : List ℕ
  answer =
      to_array signature_size
        (sign keys.private_key (signed (challenge_fields keys challenge binding)))

  abbrev pub client_says : List ℕ
  client_says =
      (type_client_hello ∷ to_array public_key_size keys.public_key)
      ++ (type_client_response ∷ answer)

  abbrev pub server_says : List ℕ
  server_says =
      (type_server_challenge ∷ ServerChallenge.body challenge)
      ++ (type_auth_result ∷ auth_status_ok ∷ [])

  sign_challenge-answer :
      (c : Conn)
      → get_channel_binding tls ≡ inr binding
      → IsSized (challenge_fields keys challenge binding)
      → sign_challenge sign keys tls challenge c ≡ ok answer c
  unfolding sign_challenge connection_binding with_binding signed_with
  sign_challenge-answer c bound sized =
      and_then-ok _ (ap (λ x. with_binding x c) bound)
      ∙ ap (λ x. signed_with sign keys tls x c) (build_signed_data_lem _ sized)

  -- All that the exchange reads and writes, where the challenge has its sizes and both directions are
  -- open.
  exchange-says :
      (rest : List ℕ) (c : Conn)
      → get_channel_binding tls ≡ inr binding
      → sprut.Protocol.ServerChallenge.IsSized challenge
      → IsSized (challenge_fields keys challenge binding)
      → c.closed ≡ false
      → c.reader.pending ≡ server_says ++ rest
      → length client_says ≤ c.writer.room
      → exchange sign keys tls c
        ≡ ok tt (record c { reader = reader rest c.reader.fin; writer = push client_says c.writer })
  unfolding exchange
  exchange-says rest c bound sized_challenge sized open_yet arriving room =
      and_then-ok _ (wrap_outcome-ok "send client hello" said_hello)
      ∙ and_then-ok _ (wrap_outcome-ok "read challenge type" got_type)
      ∙ and_then-ok _ (wrap_outcome-ok "decode challenge" got_challenge)
      ∙ and_then-ok _ (wrap_outcome-ok "sign challenge" (sign_challenge-answer c3 bound sized))
      ∙ and_then-ok _ (wrap_outcome-ok "send response" said_answer)
      ∙ and_then-ok _ (wrap_outcome-ok "read result type" got_result_type)
      ∙ and_then-ok _ (wrap_outcome-ok "decode result" got_result)
      ∙ ap (λ w. ok tt (record c { reader = reader rest c.reader.fin; writer = w }))
          (push-push hello response c.writer)
    where
      hello : List ℕ
      hello = type_client_hello ∷ to_array public_key_size keys.public_key

      response : List ℕ
      response = type_client_response ∷ answer

      c1 : Conn
      c1 = record c { writer = push hello c.writer }

      c2 : Conn
      c2 = record c1 {
        reader =
            reader (ServerChallenge.body challenge ++ (type_auth_result ∷ auth_status_ok ∷ rest))
              c.reader.fin;
      }

      c3 : Conn
      c3 = record c1 { reader = reader (type_auth_result ∷ auth_status_ok ∷ rest) c.reader.fin }

      c4 : Conn
      c4 = record c3 { writer = push response c1.writer }

      c5 : Conn
      c5 = record c4 { reader = reader (auth_status_ok ∷ rest) c.reader.fin }

      key_len : length (to_array public_key_size keys.public_key) ≡ 32
      key_len = sized.client_pub_key_len

      answer_len : length answer ≡ 64
      answer_len =
          length-copy_at 0
            (sign keys.private_key (signed (challenge_fields keys challenge binding)))
            (replicate signature_size 0) (omega arith)

      said_hello :
          writing
            (ClientHello.encode (record { pub_key = to_array public_key_size keys.public_key }))
            c
          ≡ ok tt c1
      said_hello =
          writing-Writes hello
            (ClientHello.encode (record { pub_key = to_array public_key_size keys.public_key })) c
            (ClientHello.ClientHello-Transmits
              (record { pub_key = to_array public_key_size keys.public_key }) key_len).written
            open_yet (omega (arith, room, length-append hello response))

      got_type : reading read_message_type c1 ≡ ok type_server_challenge c2
      got_type =
          reading-Reads (type_server_challenge ∷ []) type_server_challenge read_message_type
            (ServerChallenge.body challenge ++ (type_auth_result ∷ auth_status_ok ∷ rest)) c1
            (read_message_type-Reads type_server_challenge) (arriving ∙ simp append_assoc)

      got_challenge : reading ServerChallenge.decode c2 ≡ ok challenge c3
      got_challenge =
          reading-Reads (ServerChallenge.body challenge) challenge ServerChallenge.decode
            (type_auth_result ∷ auth_status_ok ∷ rest) c2
            (ServerChallenge.ServerChallenge-Transmits challenge sized_challenge).read refl

      said_answer : writing (ClientResponse.encode (record { signature = answer })) c3 ≡ ok tt c4
      said_answer =
          writing-Writes response (ClientResponse.encode (record { signature = answer })) c3
            (ClientResponse.ClientResponse-Transmits (record { signature = answer })
              answer_len).written
            open_yet (omega (arith, room, length-append hello response))

      got_result_type : reading read_message_type c4 ≡ ok type_auth_result c5
      got_result_type =
          reading-Reads (type_auth_result ∷ []) type_auth_result read_message_type
            (auth_status_ok ∷ rest) c4 (read_message_type-Reads type_auth_result) refl

      good : AuthResult.AuthResult
      good = record { status = auth_status_ok; error_msg = [] }

      got_result :
          reading AuthResult.decode c5 ≡ ok good (record c5 { reader = reader rest c.reader.fin })
      got_result =
          reading-Reads (auth_status_ok ∷ []) good AuthResult.decode rest c5
            (AuthResult.AuthResult-Transmits good).read refl

  -- Against a server that sends the challenge and a success, authenticate succeeds: it takes just
  -- these bytes, sends the hello and the signed answer, and leaves no deadline.
  pub client_authenticates :
      (start timeout : ℕ) (rest : List ℕ) (c : Conn)
      → c.closed ≡ false
      → get_channel_binding tls ≡ inr binding
      → sprut.Protocol.ServerChallenge.IsSized challenge
      → IsSized (challenge_fields keys challenge binding)
      → c.reader.pending ≡ server_says ++ rest
      → length client_says ≤ c.writer.room
      → authenticate sign keys tls start timeout c
        ≡ ok tt (record c {
          reader = reader rest c.reader.fin;
          writer = push client_says c.writer;
          deadline = none;
        })
  unfolding authenticate timed reset_deadline
  client_authenticates start timeout rest c open_yet bound sized_challenge sized arriving room =
      ap (timed sign keys tls) (set_deadline-open (some (start + timeout)) c open_yet)
      ∙ ap (reset_deadline sign keys tls) (
          exchange-says rest (record c { deadline = some (start + timeout) }) bound sized_challenge
            sized open_yet arriving room)
      ∙ ap (λ o. ok tt (logged o))
          (set_deadline-open none
            (record c {
              reader = reader rest c.reader.fin;
              writer = push client_says c.writer;
              deadline = some (start + timeout);
            })
            open_yet)
