-- ===== src/Router/Handling.antt =====
-- handleConn of pkg/router/router.go as a whole, run with no other goroutine in between: the
-- authentication, the peer, the map of peers, the read loop and the deferred calls. The write loop,
-- which works on the peer, is Peer's.
pub mod Authentic
use sprut.Router.Auth.{AuthState, Env, authenticate, off_pub_key}
use sprut.Router.Message.{Message, Session, empty_message}
use sprut.Router.Peer.{Peer, new_peer, close}
use sprut.Router.Serving.{Round, serve_rounds}
use sprut.Io.Conn.{Conn}
use sprut.Protocol.{public_key_size}
use sprut.Io.{ok, running, stopped, err, Error, Outcome, Loop}
use sprut.Base.{
  inr, inl, same_text, some, ◌+◌, if◌then◌else◌, ◌⊎◌, ◌++◌, [], ◌∷◌, Bool, none, Option, List, ℕ,
  true,
}
use sprut.Bytes.Slices.{slice}

-- WriteBufferSize and WriteTimeout, in seconds.
abbrev pub write_buffer_size : ℕ
write_buffer_size = 1000

abbrev pub write_timeout : ℕ
write_timeout = 30

-- What handlers share: the map of peers, the peers on which Close was called, and what NATS has taken.
pub record Shared : Type 0 where
  pub peers : List (List ℕ × Peer)
  pub closed : List Peer
  pub published : List (List ℕ × List ℕ)

-- sync.Map's Load and Delete.
unfoldable pub load_peer : List ℕ → List (List ℕ × Peer) → Option Peer
load_peer id [] = none
load_peer id ((id', p) ∷ ps) =
    let rest = load_peer id ps in if same_text id id' then some p else rest

unfoldable pub delete_peer : List ℕ → List (List ℕ × Peer) → List (List ℕ × Peer)
delete_peer id [] = []
delete_peer id ((id', p) ∷ ps) =
    let rest = delete_peer id ps in if same_text id id' then rest else (id', p) ∷ rest

-- What a handler meets: what it calls (`unsubscribe` is the result of Unsubscribe), its clock and
-- random bytes, the rounds of its read loop and the buffer that msgPool lends.
pub record Surroundings : Type 0 where
  pub verify : List ℕ → List ℕ → List ℕ → Bool
  pub subscribe : List ℕ → Option Error
  pub unsubscribe : Option Error
  pub marshal : Message → Error ⊎ List ℕ
  pub nats_publish : List ℕ → List ℕ → Option Error
  pub max_size : ℕ
  pub env : Env
  pub rounds : List Round
  pub pool_buf : List ℕ

-- What it leaves: its connection, the authentication buffer, and what is shared; `loop` tells whether
-- the rounds were enough for it to return.
pub record Handled : Type 0 where
  pub conn : Conn
  pub buf : List ℕ
  pub shared : Shared
  pub loop : Loop

abbrev pub closed_conn : Conn → Conn
closed_conn c = record c { closed = true }

module _ (w : Surroundings) where
  -- `oldPeer.Close()`, where LoadAndDelete found one.
  closed_old : Option Peer → List Peer
  closed_old none = []
  closed_old (some old) = close w.unsubscribe old ∷ []

  -- Step 3.
  unfoldable pub replace_peer : List ℕ → Peer → Shared → Shared
  unfolding closed_old
  replace_peer id peer shared = record shared {
    peers = (id, peer) ∷ delete_peer id shared.peers;
    closed = closed_old (load_peer id shared.peers) ++ shared.closed;
  }

  -- Behind the read loop: the deferred calls, or nothing yet.
  after_loop : List ℕ → Peer → AuthState → Shared → Loop × Session → Handled
  after_loop id peer s shared (running, t) = record {
    conn = record s.conn { reader = t.reader };
    buf = s.buf;
    shared = record shared { published = t.published };
    loop = running;
  }
  after_loop id peer s shared (stopped, t) = record {
    conn = closed_conn (record s.conn { reader = t.reader });
    buf = s.buf;
    shared = record {
      peers = delete_peer id shared.peers;
      closed = close w.unsubscribe peer ∷ shared.closed;
      published = t.published;
    };
    loop = stopped;
  }

  -- Step 5.
  read_loop : Peer → AuthState → Shared → Loop × Session
  read_loop peer s shared =
      serve_rounds w.marshal w.nats_publish peer.pub_key_hex w.max_size w.rounds (record {
        reader = s.conn.reader;
        buf = w.pool_buf;
        pooled = empty_message;
        published = shared.published;
      })

  with_peer : AuthState → List ℕ → Error ⊎ Peer → Shared → Handled
  with_peer s id (inl e) shared = record {
    conn = closed_conn s.conn;
    buf = s.buf;
    shared = shared;
    loop = stopped;
  }
  with_peer s id (inr peer) shared =
      let now = replace_peer id peer shared in after_loop id peer s now (read_loop peer s now)

  unfoldable pub peer_id : AuthState → List ℕ
  peer_id s = slice off_pub_key (off_pub_key + public_key_size) s.buf

  after_auth : Outcome AuthState (Unit {0}) → Shared → Handled
  after_auth (err e s) shared = record {
    conn = closed_conn s.conn;
    buf = s.buf;
    shared = shared;
    loop = stopped;
  }
  after_auth (ok a s) shared =
      with_peer s (peer_id s)
        (new_peer w.subscribe s.conn (peer_id s) write_buffer_size write_timeout) shared

  -- handleConn.
  unfoldable pub handle_conn : AuthState → Shared → Handled
  unfolding after_auth with_peer read_loop after_loop
  handle_conn s shared = after_auth (authenticate w.verify w.env s) shared
