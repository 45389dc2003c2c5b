-- ===== src/Examples/Handshake.antt =====
-- The authentication of both sides at concrete inputs.
use sprut.Bytes.Slices.{copy_at}
use sprut.Handshake.{IsSignature, IsMatched, MutualSuccess, authenticate-MutualSuccess}
use sprut.Router.Auth.{AuthState, Env, auth_buf_size}
use sprut.Protocol.ChannelBinding.{get_channel_binding, ConnectionState}
use sprut.Base.{
  some, false, length, none, refl, leb, arith, Bool, ℕ, true, [], inr, List, replicate,
}
use sprut.Identity.{KeyPair}
use sprut.Io.Conn.{Conn}
use sprut.Io.{eof}

-- A stand-in for ed25519: a signature is the key, twice.
abbrev toy_sign : List ℕ → List ℕ → List ℕ
toy_sign private_key text = private_key

abbrev toy_verify : List ℕ → List ℕ → List ℕ → Bool
toy_verify key text signature = leb 64 (length signature)

abbrev toy_keys : KeyPair
toy_keys = record { public_key = replicate 32 5; private_key = replicate 64 5 }

toy-IsSignature : IsSignature toy_sign toy_verify toy_keys
toy-IsSignature = record { key_len = refl; signature_len = λ text. refl; verifies = λ text. refl }

abbrev toy_tls : ConnectionState
toy_tls = record {
  handshake_complete = true;
  export_keying_material = λ label n. inr (replicate n 6);
}

abbrev fresh_conn : Conn
fresh_conn = record {
  reader = record { pending = []; fin = eof };
  writer = record { output = []; room = 1000 };
  deadline = none;
  closed = false;
  tls = some toy_tls;
}

abbrev fresh_state : AuthState
fresh_state = record { conn = fresh_conn; buf = replicate auth_buf_size 0 }

abbrev toy_env : Env
toy_env = record {
  start = 1700000000;
  stamp = 1700000000;
  check = 1700000001;
  random = inr (replicate 32 7);
  timeout = 10;
  challenge_ttl = 60;
}

toy-IsMatched :
    IsMatched toy_env
      (replicate 32 7)
      (replicate 32 0)
      (replicate 32 6)
      toy_tls
      fresh_conn
      toy_tls
      fresh_state
unfolding get_channel_binding copy_at
toy-IsMatched = record {
  client_open = refl;
  server_open = refl;
  client_bound = refl;
  is_tls = refl;
  server_bound = refl;
  drawn = refl;
  random_len = refl;
  id_len = refl;
  id_at = refl;
  buf_len = refl;
  fresh = record {
    timely = record { stamp_fits = omega arith; check_fits = omega arith; ttl_fits = omega arith };
    not_ahead = omega arith;
    not_expired = omega arith;
  };
  client_room = omega arith;
  server_room = omega arith;
}

authenticate-MutualSuccess_example :
    MutualSuccess toy_sign toy_verify toy_keys toy-IsSignature toy_env
      (replicate 32 7)
      (replicate 32 0)
      (replicate 32 6)
      toy_tls
      toy_tls
      1700000000
      10
      fresh_conn
      fresh_state
authenticate-MutualSuccess_example =
    authenticate-MutualSuccess toy_sign toy_verify toy_keys toy-IsSignature toy_env (replicate 32 7)
      (replicate 32 0) (replicate 32 6) toy_tls toy_tls 1700000000 10 fresh_conn fresh_state
      toy-IsMatched
