-- ===== src/Router/Auth.antt =====
-- authenticate of pkg/router/auth.go. ed25519.Verify is a parameter; what the call takes from its
-- surroundings (clock readings, the random bytes) is its `Env`.
pub mod Freshness
pub mod Keeps
pub mod Verified
pub mod Soundness
pub mod Whole
pub mod Laid
pub mod Steps
pub mod Challenge
pub mod Conclude
pub mod Honest
use sprut.Base.{
  ◌-◌, ◌==◌, ◌^◌, ◌%◌, inr, [], ltb, none, some, not, ◌∷◌, inl, take, Bool, ◌⊎◌, String, Option,
  List, ◌+◌, ℕ,
}
use sprut.Io.{
  challenge_expired, invalid_signature, read_full, wrapping, wrap, message, panic, fail_if, ◌>>=◌,
  Writer, err, ◌>>◌, Reader, write, ok, Error, Outcome, Proc,
}
use sprut.Io.Conn.{logged, set_deadline, Conn}
use sprut.Protocol.ChannelBinding.{get_channel_binding, ConnectionState}
use sprut.Protocol.SignedData.{Fields, build_signed_data_to, signed_data_size}
use sprut.Protocol.{
  auth_status_ok, type_auth_result, type_client_response, signature_size, timestamp_size,
  server_id_size, public_key_size, challenge_size, type_server_challenge, type_client_hello,
}
use sprut.Bytes.Slices.{byte_at, copy_at, slice}
use sprut.Bytes.{put_be}

-- The offsets in the authentication buffer.
abbrev pub off_pub_key : ℕ
off_pub_key = 0

abbrev pub off_challenge : ℕ
off_challenge = 32

abbrev pub off_timestamp : ℕ
off_timestamp = 64

abbrev pub off_server_id : ℕ
off_server_id = 72

abbrev pub off_signature : ℕ
off_signature = 104

abbrev pub off_signed_data : ℕ
off_signed_data = 168

abbrev pub off_work : ℕ
off_work = off_signed_data + signed_data_size

abbrev pub auth_buf_size : ℕ
auth_buf_size = off_work + 128

-- A connection and the buffer that serves its authentication.
pub record AuthState : Type 0 where
  pub conn : Conn
  pub buf : List ℕ

-- Time is in seconds. `random` is what rand.Read gives for the challenge; `stamp` and `check` are the
-- clock at steps 4 and 12; `start` is the clock at the call.
pub record Env : Type 0 where
  pub start : ℕ
  pub stamp : ℕ
  pub check : ℕ
  pub random : Error ⊎ List ℕ
  pub timeout : ℕ
  pub challenge_ttl : ℕ

read_back : AuthState → ℕ → List ℕ → Outcome Reader (List ℕ) → Outcome AuthState (Unit {0})
read_back s off pending (ok bytes r) =
    ok tt (record { conn = record s.conn { reader = r }; buf = copy_at off bytes s.buf })
read_back s off pending (err e r) =
    err e (record { conn = record s.conn { reader = r }; buf = copy_at off pending s.buf })

-- `io.ReadFull(conn, buf[off:off+n])`
unfoldable pub read_region : ℕ → ℕ → Proc AuthState (Unit {0})
unfolding read_back
read_region off n s = read_back s off (take n s.conn.reader.pending) (read_full n s.conn.reader)

written_back : AuthState → Outcome Writer (Unit {0}) → Outcome AuthState (Unit {0})
written_back s (ok a w) = ok a (record s { conn = record s.conn { writer = w } })
written_back s (err e w) = err e (record s { conn = record s.conn { writer = w } })

-- `conn.Write(buf[lo:hi])`
unfoldable pub write_region : ℕ → ℕ → Proc AuthState (Unit {0})
unfolding written_back
write_region lo hi s = written_back s (write (slice lo hi s.buf) s.conn.writer)

-- `copy(buf[off:], src)`, and an assignment to one byte.
abbrev pub put : ℕ → List ℕ → Proc AuthState (Unit {0})
put off src s = ok tt (record s { buf = copy_at off src s.buf })

abbrev pub with_buf {ℓ} : {A : Type ℓ} → (List ℕ → Proc AuthState A) → Proc AuthState A
with_buf f s = f s.buf s

-- A read of one byte, which has to be the type `t`.
unfoldable pub expect_type : String → ℕ → Proc AuthState (Unit {0})
unfolding read_region
expect_type context t = do
  wrapping context (read_region off_work 1)
  with_buf (λ buf.
      fail_if (not (byte_at off_work buf == t))
        (message "unexpected message type: %d" (byte_at off_work buf ∷ [])))

-- Step 3: the challenge goes straight into the buffer.
unfoldable pub put_random : Error ⊎ List ℕ → Proc AuthState (Unit {0})
put_random (inl e) s = err (wrap "generate challenge" e) s
put_random (inr bytes) s = put off_challenge (take challenge_size bytes) s

-- Step 6: the challenge message is put together in the work area and sent.
unfoldable pub send_challenge : Proc AuthState (Unit {0})
send_challenge = do
  put off_work (type_server_challenge ∷ [])
  with_buf (λ buf. put (off_work + 1) (slice off_challenge (off_challenge + challenge_size) buf))
  with_buf (λ buf.
      put (off_work + 1 + challenge_size)
        (slice off_timestamp (off_timestamp + timestamp_size) buf))
  with_buf (λ buf.
      put (off_work + 1 + challenge_size + timestamp_size)
        (slice off_server_id (off_server_id + server_id_size) buf))
  wrapping "send challenge"
      (write_region off_work (off_work + 1 + challenge_size + timestamp_size + server_id_size))

-- Step 9.
bound : Error ⊎ List ℕ → Proc AuthState (List ℕ)
bound (inl e) s = err (wrap "get channel binding" e) s
bound (inr b) s = ok b s

binding_of : Option ConnectionState → Proc AuthState (List ℕ)
binding_of none s = err (message "not a TLS connection" []) s
binding_of (some state) s = bound (get_channel_binding state) s

unfoldable pub channel_binding : Proc AuthState (List ℕ)
unfolding binding_of bound
channel_binding s = binding_of s.conn.tls s

-- Step 10: the data to be verified is built in its area of the buffer.
abbrev pub auth_fields : ℕ → List ℕ → List ℕ → Fields
auth_fields timestamp binding buf = record {
  challenge = slice off_challenge (off_challenge + challenge_size) buf;
  timestamp = timestamp;
  server_id = slice off_server_id (off_server_id + server_id_size) buf;
  client_pub_key = slice off_pub_key (off_pub_key + public_key_size) buf;
  channel_binding = binding;
}

built : Option (List ℕ × List ℕ) → Proc AuthState (List ℕ)
built none s = err (panic "index out of range") s
built (some (area, signed_data)) s =
    ok signed_data (record s { buf = copy_at off_signed_data area s.buf })

unfoldable pub signed_region : ℕ → List ℕ → Proc AuthState (List ℕ)
unfolding built
signed_region timestamp binding s =
    built
      (build_signed_data_to (slice off_signed_data (off_signed_data + signed_data_size) s.buf)
        (auth_fields timestamp binding s.buf))
      s

-- Step 12. Both subtractions and the addition are of uint64.
unfoldable pub check_timestamp {ℓ} : {S : Type ℓ} → ℕ → ℕ → ℕ → Proc S (Unit {0})
check_timestamp timestamp now challenge_ttl = do
  fail_if (ltb ((now + 60) % 2 ^ 64) timestamp) (message "timestamp in future" [])
  fail_if (ltb challenge_ttl ((now + 2 ^ 64 - timestamp) % 2 ^ 64)) challenge_expired

-- Step 13.
unfoldable pub announce : Proc AuthState (Unit {0})
unfolding write_region
announce = do
  put off_work (type_auth_result ∷ [])
  put (off_work + 1) (auth_status_ok ∷ [])
  wrapping "send auth result" (write_region off_work (off_work + 2))

-- The deferred reset of the deadline; its failure is only logged.
abbrev pub without_deadline : Conn → Conn
without_deadline c = logged (set_deadline none c)

reset_deadline : Outcome AuthState (Unit {0}) → Outcome AuthState (Unit {0})
reset_deadline (ok a s) = ok a (record s { conn = without_deadline s.conn })
reset_deadline (err e s) = err e (record s { conn = without_deadline s.conn })

module _ (verify : List ℕ → List ℕ → List ℕ → Bool) where
  -- Step 11.
  unfoldable pub check_signature : List ℕ → Proc AuthState (Unit {0})
  check_signature signed_data = with_buf (λ buf.
      fail_if
        (not (
          verify (slice off_pub_key (off_pub_key + public_key_size) buf) signed_data
            (slice off_signature (off_signature + signature_size) buf)))
        invalid_signature)

  -- Steps 10 to 13.
  unfoldable pub settle : Env → List ℕ → Proc AuthState (Unit {0})
  unfolding signed_region check_signature check_timestamp announce
  settle env binding = do
    signed_data ← signed_region env.stamp binding
    check_signature signed_data
    check_timestamp env.stamp env.check env.challenge_ttl
    announce

  -- Steps 9 to 13.
  unfoldable pub conclude : Env → Proc AuthState (Unit {0})
  unfolding channel_binding settle
  conclude env = do binding ← channel_binding; settle env binding

  -- Steps 6 to 13.
  unfoldable pub respond : Env → Proc AuthState (Unit {0})
  unfolding send_challenge expect_type read_region conclude
  respond env = do
    send_challenge
    expect_type "read response type" type_client_response
    wrapping "read signature" (read_region off_signature signature_size)
    conclude env

  -- All steps.
  unfoldable pub exchange : Env → Proc AuthState (Unit {0})
  unfolding expect_type read_region put_random respond
  exchange env = do
    expect_type "read hello type" type_client_hello
    wrapping "read pubkey" (read_region off_pub_key public_key_size)
    put_random env.random
    put off_timestamp (put_be timestamp_size env.stamp)
    respond env

  timed : Env → AuthState → Outcome Conn (Unit {0}) → Outcome AuthState (Unit {0})
  timed env s (err e c) = err (wrap "set deadline" e) (record s { conn = c })
  timed env s (ok a c) = reset_deadline (exchange env (record s { conn = c }))

  unfoldable pub authenticate : Env → Proc AuthState (Unit {0})
  unfolding timed reset_deadline exchange
  authenticate env s = timed env s (set_deadline (some (env.start + env.timeout)) s.conn)
