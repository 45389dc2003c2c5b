-- ===== src/Handshake.antt =====
-- Both sides of the authentication together: authenticate of pkg/client/client.go with signChallenge,
-- and authenticate of pkg/router/auth.go.
use sprut.Router.Auth.Steps.{state}
use sprut.Client.Auth.{to_array, challenge_fields, authenticate as client_authenticate}
use sprut.Client.Auth.Honest.{client_authenticates, answer, client_says, server_says}
use sprut.Router.Auth.{AuthState, Env, auth_buf_size, authenticate as server_authenticate}
use sprut.Router.Auth.Conclude.{IsFresh}
use sprut.Router.Auth.Honest.{IsProper, server_authenticates}
use sprut.Protocol.ServerChallenge.{ServerChallenge}
use sprut.Protocol.SignedData.{signed, IsSized}
use sprut.Base.{
  refl, sym, ◌∷◌, append-nil, ◌≤◌, length-append, ◌+◌, none, drop_all, ◌∙◌, some, length-replicate,
  ap, [], arith, inr, ◌++◌, true, replicate, false, ◌≡◌, Bool, length, ℕ, List,
}
use sprut.Protocol.ChannelBinding.{length-get_channel_binding, get_channel_binding, ConnectionState}
use sprut.Io.Conn.{Conn}
use sprut.Identity.{KeyPair}
use sprut.Io.Reads.{reader}
use sprut.Protocol.{
  auth_status_ok, type_auth_result, type_client_response, server_id_size, challenge_size,
  signature_size, public_key_size,
}
use sprut.Bytes.Slices.{slice, copy_at-fits}
use sprut.Io.{push, ok}
use sprut.Bytes.{length-put_be, put_be}

-- What ed25519 is documented to give for a key pair: keys and signatures of their sizes, and
-- signatures that verify.
pub record IsSignature (sign : List ℕ → List ℕ → List ℕ) (verify : List ℕ → List ℕ → List ℕ → Bool)
    (keys : KeyPair) : Type 0 where
  pub key_len : length keys.public_key ≡ public_key_size
  pub signature_len : (message : List ℕ) → length (sign keys.private_key message) ≡ signature_size
  pub verifies :
      (message : List ℕ) → verify keys.public_key message (sign keys.private_key message) ≡ true

-- A client's connection and a server's state that may begin: open, over TLS connections that export
-- the same binding, with a buffer that carries the server's id, 32 random bytes, room to write, and a
-- clock that stays within the lifetime of the challenge.
pub record IsMatched (env : Env) (random server_id binding : List ℕ) (tls : ConnectionState)
    (c : Conn) (server_tls : ConnectionState) (s : AuthState) : Type 0 where
  pub client_open : c.closed ≡ false
  pub server_open : s.conn.closed ≡ false
  pub client_bound : get_channel_binding tls ≡ inr binding
  pub is_tls : s.conn.tls ≡ some server_tls
  pub server_bound : get_channel_binding server_tls ≡ inr binding
  pub drawn : env.random ≡ inr random
  pub random_len : length random ≡ challenge_size
  pub id_len : length server_id ≡ server_id_size
  pub id_at : slice 72 104 s.buf ≡ server_id
  pub buf_len : length s.buf ≡ auth_buf_size
  pub fresh : IsFresh env
  pub client_room : 98 ≤ c.writer.room
  pub server_room : 75 ≤ s.conn.writer.room

to_array_whole : (n : ℕ) (bytes : List ℕ) → length bytes ≡ n → to_array n bytes ≡ bytes
to_array_whole n bytes h =
    copy_at-fits 0 bytes (replicate n 0) (omega (arith, length-replicate {A = ℕ} n 0))
    ∙ ap (λ l. bytes ++ l)
        (drop_all (0 + length bytes) (replicate n 0) (omega (arith, length-replicate {A = ℕ} n 0)))
    ∙ append-nil bytes

module _ (sign : List ℕ → List ℕ → List ℕ) (verify : List ℕ → List ℕ → List ℕ → Bool)
    (keys : KeyPair) (sound : IsSignature sign verify keys) (env : Env)
    (random server_id binding : List ℕ) (tls server_tls : ConnectionState) where
  -- Both sides succeed on what the other one sends.
  pub record MutualSuccess (start timeout : ℕ) (c : Conn) (s : AuthState) : Type 0 where
    pub up : List ℕ
    pub down : List ℕ
    pub c' : Conn
    pub s' : AuthState
    pub client_ok :
        client_authenticate sign keys tls start timeout
          (record c { reader = reader down c.reader.fin })
        ≡ ok tt c'
    pub server_ok :
        server_authenticate verify env
          (record s { conn = record s.conn { reader = reader up s.conn.reader.fin } })
        ≡ ok tt s'
    pub client_sent : c'.writer.output ≡ c.writer.output ++ up
    pub server_sent : s'.conn.writer.output ≡ s.conn.writer.output ++ down
    pub client_took_all : c'.reader.pending ≡ []
    pub server_took_all : s'.conn.reader.pending ≡ []
    pub identified : slice 0 32 s'.buf ≡ keys.public_key
    pub no_client_deadline : c'.deadline ≡ none
    pub no_server_deadline : s'.conn.deadline ≡ none

  abbrev challenge : ServerChallenge
  challenge = record { challenge = random; timestamp = env.stamp; server_id = server_id }

  -- A client and a server that follow the protocol authenticate: there are bytes for either direction
  -- on which both sides succeed, each side sending just what the other one takes; the server then
  -- holds the client's key, and neither connection keeps a deadline.
  pub authenticate-MutualSuccess :
      (start timeout : ℕ) (c : Conn) (s : AuthState)
      → IsMatched env random server_id binding tls c server_tls s
      → MutualSuccess start timeout c s
  authenticate-MutualSuccess start timeout c s m =
      let client_run =
        client_authenticates sign keys tls challenge binding start timeout []
          (record c { reader = reader down c.reader.fin }) m.client_open m.client_bound
          (record {
            challenge_len = m.random_len;
            timestamp_fits = sized.timestamp_fits;
            server_id_len = m.id_len;
          })
          sized (sym (append-nil down)) (omega (arith, m.client_room, up_len)) in
      let (buf', server_run, key_at, len) =
        server_authenticates verify env key random server_id binding signature server_tls []
          (record s { conn = record s.conn { reader = reader up s.conn.reader.fin } }) m.server_open
          proper (sym (append-nil up)) in
      record {
        up = up;
        down = down;
        c' = record c {
          reader = reader [] c.reader.fin;
          writer = push up c.writer;
          deadline = none;
        };
        s' = state (record s.conn { deadline = none }) [] (push down s.conn.writer) buf';
        client_ok = client_run;
        server_ok = server_run;
        client_sent = refl;
        server_sent = refl;
        client_took_all = refl;
        server_took_all = refl;
        identified = key_at ∙ key_eq;
        no_client_deadline = refl;
        no_server_deadline = refl;
      }
    where
      up : List ℕ
      up = client_says sign keys tls challenge binding

      down : List ℕ
      down = server_says sign keys tls challenge binding

      key : List ℕ
      key = to_array public_key_size keys.public_key

      key_eq : key ≡ keys.public_key
      key_eq = to_array_whole public_key_size keys.public_key sound.key_len

      said : List ℕ
      said = signed (challenge_fields keys challenge binding)

      signature : List ℕ
      signature = answer sign keys tls challenge binding

      signature_eq : signature ≡ sign keys.private_key said
      signature_eq =
          to_array_whole signature_size (sign keys.private_key said) (sound.signature_len said)

      sized : IsSized (challenge_fields keys challenge binding)
      sized = record {
        challenge_len = m.random_len;
        timestamp_fits = omega (arith, m.fresh.timely.stamp_fits);
        server_id_len = m.id_len;
        client_pub_key_len = ap length key_eq ∙ sound.key_len;
        channel_binding_len = length-get_channel_binding tls binding m.client_bound;
      }

      up_len : length up ≡ 98
      up_len = omega (
        arith,
        length-append key (type_client_response ∷ signature),
        ap length key_eq,
        sound.key_len,
        ap length signature_eq,
        sound.signature_len said,
      )

      down_len : length down ≡ 75
      down_len = omega (
        arith,
        length-append (random ++ (put_be 8 env.stamp ++ server_id))
            (type_auth_result ∷ auth_status_ok ∷ []),
        length-append random (put_be 8 env.stamp ++ server_id),
        length-append (put_be 8 env.stamp) server_id,
        length-put_be 8 env.stamp,
        m.random_len,
        m.id_len,
      )

      proper :
          IsProper verify env key random server_id binding signature server_tls
            (record s { conn = record s.conn { reader = reader up s.conn.reader.fin } })
      proper = record {
        is_tls = m.is_tls;
        is_bound = m.server_bound;
        drawn = m.drawn;
        sized = sized;
        signature_len = ap length signature_eq ∙ sound.signature_len said;
        buf_len = m.buf_len;
        id_at = m.id_at;
        verified = (λ i. verify (key_eq i) said (signature_eq i)) ∙ sound.verifies said;
        fresh = m.fresh;
        room = omega (arith, m.server_room, down_len);
      }
