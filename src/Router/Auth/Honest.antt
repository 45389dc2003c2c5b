-- ===== src/Router/Auth/Honest.antt =====
-- authenticate of the server against a client that answers as it should.
use sprut.Router.Auth.{
  reset_deadline, timed, authenticate, auth_buf_size, AuthState, Env, exchange, respond, put_random,
  off_work, off_signature,
}
use sprut.Router.Auth.Laid.{Laid, copy-Laid, with_stamp, with_stamp-Laid}
use sprut.Router.Auth.Steps.{state, read_region-state, expect_type-state}
use sprut.Router.Auth.Challenge.{with_message, with_message-Laid, send_challenge-state}
use sprut.Router.Auth.Conclude.{fields_of, IsFresh, IsReady, conclude-state}
use sprut.Protocol.SignedData.{IsSized, signed}
use sprut.Base.{
  ◌+◌, Option, none, false, take_all, append_assoc, ap, length-append, ◌∙◌, arith, ◌≤◌, true, [],
  length, inr, ◌∷◌, some, ◌++◌, ◌≡◌, Bool, ℕ, List,
}
use sprut.Protocol.ChannelBinding.{get_channel_binding, ConnectionState}
use sprut.Protocol.{
  auth_status_ok, type_auth_result, type_client_response, type_client_hello, type_server_challenge,
}
use sprut.Io.{Writer, push, ok}
use sprut.Bytes.{length-put_be, put_be}
use sprut.Bytes.Slices.{slice-copy_at, slice-copy_at_before, length-copy_at, copy_at, slice}
use sprut.Io.Conn.{logged, set_deadline-open, Conn}
use sprut.Io.Ensures.{wrap_outcome-ok, and_then-ok}
use sprut.Io.Writes.{push-push}

module _ (verify : List ℕ → List ℕ → List ℕ → Bool) (env : Env)
    (key random server_id binding signature : List ℕ) where
  -- What the client is to send, and what it is sent.
  abbrev pub hello_and_response : List ℕ
  hello_and_response = (type_client_hello ∷ key) ++ (type_client_response ∷ signature)

  abbrev pub challenge_and_result : List ℕ
  challenge_and_result =
      (type_server_challenge ∷ (random ++ (put_be 8 env.stamp ++ server_id)))
      ++ (type_auth_result ∷ auth_status_ok ∷ [])

  -- The server's side of a proper authentication.
  pub record IsProper (tls : ConnectionState) (s : AuthState) : Type 0 where
    pub is_tls : s.conn.tls ≡ some tls
    pub is_bound : get_channel_binding tls ≡ inr binding
    pub drawn : env.random ≡ inr random
    pub sized : IsSized (fields_of env key random server_id binding)
    pub signature_len : length signature ≡ 64
    pub buf_len : length s.buf ≡ auth_buf_size
    pub id_at : slice 72 104 s.buf ≡ server_id
    pub verified : verify key (signed (fields_of env key random server_id binding)) signature ≡ true
    pub fresh : IsFresh env
    pub room : length challenge_and_result ≤ s.conn.writer.room

  abbrev Ready : Conn → List ℕ → Type 0
  Ready c = IsReady verify c (fields_of env key random server_id binding) signature

  exchange-state :
      (tls : ConnectionState) (rest : List ℕ) (s : AuthState)
      → IsProper tls s
      → s.conn.reader.pending ≡ hello_and_response ++ rest
      → (buf' : List ℕ) × (exchange verify env s
          ≡ ok tt (state s.conn rest (push challenge_and_result s.conn.writer) buf'))
        × Ready s.conn buf'
  unfolding exchange respond put_random
  exchange-state tls rest s p arriving =
      let (buf', concludes, ready) =
        conclude-state verify c env key random server_id binding signature tls rest
          (push greeting w) b7 p.is_tls p.is_bound p.sized b7_ready p.verified p.fresh
          (omega
            (arith, p.room, length-append greeting (type_auth_result ∷ auth_status_ok ∷ []))) in
      (
        buf',
        ap (λ l. exchange verify env (state c l w s.buf)) (arriving ∙ simp append_assoc)
            ∙ and_then-ok _ (
                expect_type-state c "read hello type" type_client_hello (key ++ after_key) w s.buf
                  p.buf_len)
            ∙ and_then-ok _ (
                wrap_outcome-ok "read pubkey"
                  (read_region-state c 0 32 key after_key w b1 p.sized.client_pub_key_len))
            ∙ and_then-ok _ (
                ap (λ r. put_random r (state c after_key w b2)) p.drawn
                ∙ ap (λ l. ok tt (state c after_key w (copy_at 32 l b2)))
                    (take_all 32 random (omega (arith, p.sized.challenge_len))))
            ∙ and_then-ok _ (
                send_challenge-state b4 b4_laid p.sized.challenge_len (length-put_be 8 env.stamp)
                  p.sized.server_id_len c after_key w
                  (omega (
                    arith,
                    p.room,
                    length-append greeting (type_auth_result ∷ auth_status_ok ∷ []),
                  )))
            ∙ and_then-ok _ (
                expect_type-state c "read response type" type_client_response (signature ++ rest)
                  (push greeting w) b5 b5_laid.len)
            ∙ and_then-ok _ (
                wrap_outcome-ok "read signature" (
                  read_region-state c off_signature 64 signature rest (push greeting w) b6
                    p.signature_len))
            ∙ concludes
            ∙ ap (λ x. ok tt (state c rest x buf'))
                (push-push greeting (type_auth_result ∷ auth_status_ok ∷ []) w),
        ready,
      )
    where
      c : Conn
      c = s.conn

      w : Writer
      w = s.conn.writer

      after_key : List ℕ
      after_key = (type_client_response ∷ signature) ++ rest

      b1 : List ℕ
      b1 = copy_at off_work (type_client_hello ∷ []) s.buf

      b1_len : length b1 ≡ auth_buf_size
      b1_len =
          length-copy_at off_work (type_client_hello ∷ []) s.buf (omega (arith, p.buf_len))
          ∙ p.buf_len

      b1_id : slice 72 104 b1 ≡ server_id
      b1_id =
          slice-copy_at_before 72 104 off_work (type_client_hello ∷ []) s.buf (omega arith)
            (omega arith) (omega (arith, p.buf_len))
          ∙ p.id_at

      b4 : List ℕ
      b4 =
          with_stamp key random (put_be 8 env.stamp) server_id b1 b1_len b1_id
            p.sized.client_pub_key_len p.sized.challenge_len (length-put_be 8 env.stamp)

      b4_laid : Laid key random (put_be 8 env.stamp) server_id b4
      b4_laid =
          with_stamp-Laid key random (put_be 8 env.stamp) server_id b1 b1_len b1_id
            p.sized.client_pub_key_len p.sized.challenge_len (length-put_be 8 env.stamp)

      b2 : List ℕ
      b2 = copy_at 0 key b1

      greeting : List ℕ
      greeting = type_server_challenge ∷ (random ++ (put_be 8 env.stamp ++ server_id))

      b5 : List ℕ
      b5 =
          with_message b4 b4_laid p.sized.challenge_len (length-put_be 8 env.stamp)
            p.sized.server_id_len

      b5_laid : Laid key random (put_be 8 env.stamp) server_id b5
      b5_laid =
          with_message-Laid b4 b4_laid p.sized.challenge_len (length-put_be 8 env.stamp)
            p.sized.server_id_len

      b6 : List ℕ
      b6 = copy_at off_work (type_client_response ∷ []) b5

      b6_laid : Laid key random (put_be 8 env.stamp) server_id b6
      b6_laid =
          copy-Laid off_work (type_client_response ∷ []) b5 (omega arith) (omega arith) b5_laid

      b7 : List ℕ
      b7 = copy_at off_signature signature b6

      b7_ready : Ready c b7
      b7_ready = record {
        laid =
            copy-Laid off_signature signature b6 (omega arith) (omega (arith, p.signature_len))
              b6_laid;
        signature_at =
            slice-copy_at 104 168 signature b6 (omega (arith, p.signature_len))
              (omega (arith, b6_laid.len));
      }

  -- Against a client that sends a hello and a signature that verifies, authenticate succeeds within
  -- the lifetime of the challenge: it takes just these bytes, sends the challenge and the success, and
  -- leaves the client's key at the front of the buffer and no deadline.
  pub server_authenticates :
      (tls : ConnectionState) (rest : List ℕ) (s : AuthState)
      → s.conn.closed ≡ false
      → IsProper tls s
      → s.conn.reader.pending ≡ hello_and_response ++ rest
      → (buf' : List ℕ) × (authenticate verify env s
          ≡ ok tt (
              state
                (record s.conn { deadline = none })
                rest
                (push challenge_and_result s.conn.writer)
                buf'))
        × (slice 0 32 buf' ≡ key)
        × (length buf' ≡ auth_buf_size)
  unfolding authenticate timed reset_deadline
  server_authenticates tls rest s open_yet p arriving =
      let (buf', exchanges, ready) = exchange-state tls rest s1 p1 arriving in
      (
        buf',
        ap (timed verify env s) (set_deadline-open until s.conn open_yet)
            ∙ ap reset_deadline exchanges
            ∙ ap (λ o. ok tt (record { conn = logged o; buf = buf' }))
                (set_deadline-open none
                  (state s1.conn rest (push challenge_and_result s.conn.writer) buf').conn
                  open_yet),
        ready.laid.key_at,
        ready.laid.len,
      )
    where
      until : Option ℕ
      until = some (env.start + env.timeout)

      s1 : AuthState
      s1 = record s { conn = record s.conn { deadline = until } }

      p1 : IsProper tls s1
      p1 = record {
        is_tls = p.is_tls;
        is_bound = p.is_bound;
        drawn = p.drawn;
        sized = p.sized;
        signature_len = p.signature_len;
        buf_len = p.buf_len;
        id_at = p.id_at;
        verified = p.verified;
        fresh = p.fresh;
        room = p.room;
      }
