-- ===== src/Router/Handling/Authentic.antt =====
-- What one connection can do to the server.
use sprut.Router.Handling.{
  Shared, Surroundings, Handled, load_peer, delete_peer, replace_peer, peer_id, handle_conn,
  after_auth, with_peer, after_loop, read_loop, write_buffer_size, write_timeout,
}
use mathlib.Core.Path.{subst}
use sprut.Router.Auth.{AuthState, authenticate, auth_buf_size}
use sprut.Router.Auth.Soundness.{Accepted, Intact}
use sprut.Router.Auth.Verified.{IsTimely}
use sprut.Router.Auth.Whole.{authenticate-Accepted}
use sprut.Router.Serving.Origin.{IsGrown, serve_rounds-IsGrown}
use sprut.Router.Peer.{Peer, new_peer}
use sprut.Router.Peer.Fresh.{fresh_peer, new_peer_cases}
use sprut.Router.Hex.{encode_to_string}
use sprut.Io.Ensures.{Ensures}
use sprut.Base.{
  if◌then◌else◌, ap, ◌⊎◌, sym, true, ◌∙◌, length, [], ◌∷◌, some, refl, inr, eq_of_same_text, inl,
  Bool-cases, false, same_text, none, ◌≢◌, ◌≡◌, ℕ, List,
}
use sprut.Io.{ok, err, Outcome, running, stopped, Loop, Error}
use sprut.Bytes.Slices.{slice}
use sprut.Router.Message.{empty_message, Session}

-- Delete takes away every entry of the id, and no other.
load-delete_self :
    (id : List ℕ) (ps : List (List ℕ × Peer)) → load_peer id (delete_peer id ps) ≡ none
unfolding load_peer delete_peer
load-delete_self id [] = refl
load-delete_self id ((id', p) ∷ ps) = elim (Bool-cases (same_text id id')) [
  | inl same ↦ rw same (load-delete_self id ps)
  | inr other ↦ rw other (rw other (load-delete_self id ps))
]

same_text_apart : (a b : List ℕ) → a ≢ b → same_text a b ≡ false
same_text_apart a b h = elim (Bool-cases (same_text a b)) [
  | inl same ↦ absurd (h (eq_of_same_text a b same))
  | inr other ↦ other
]

load-delete_other :
    (id other : List ℕ) (ps : List (List ℕ × Peer))
    → other ≢ id
    → load_peer other (delete_peer id ps) ≡ load_peer other ps
unfolding load_peer delete_peer
load-delete_other id other [] h = refl
load-delete_other id other ((id', p) ∷ ps) h = elim (Bool-cases (same_text id id')) [
  | inl same ↦
      rw (same, same_text_apart other id' (λ e. h (e ∙ sym (eq_of_same_text id id' same))))
        (load-delete_other id other ps h)
  | inr apart ↦
      rw apart
        (ap (λ l. if same_text other id' then some p else l) (load-delete_other id other ps h))
]

load-replace_other :
    (w : Surroundings) (id other : List ℕ) (peer : Peer) (shared : Shared)
    → other ≢ id
    → load_peer other (replace_peer w id peer shared).peers ≡ load_peer other shared.peers
unfolding replace_peer load_peer
load-replace_other w id other peer shared h =
    rw (same_text_apart other id h) (load-delete_other id other shared.peers h)

module _ (w : Surroundings) (s : AuthState) (shared : Shared) where
  -- The connection was turned away, and has changed nothing.
  pub record IsTurnedAway (h : Handled) : Type 0 where
    pub same : h.shared ≡ shared
    pub closed : h.conn.closed ≡ true

  -- The key in the buffer has signed this connection's challenge; what was published since is its own,
  -- at most one message a round; no other key's peer has changed; and where the read loop has returned,
  -- the connection is closed and the map has no peer of the key.
  pub record IsSession (h : Handled) : Type 0 where
    pub signed : AuthState
    pub accepted : Accepted w.verify w.env s signed
    pub same_buf : h.buf ≡ signed.buf
    pub own :
        IsGrown w.marshal w.nats_publish
          (encode_to_string (peer_id w signed))
          w.max_size
          (length w.rounds)
          shared.published
          h.shared.published
    pub others :
        (id : List ℕ)
        → id ≢ peer_id w signed
        → load_peer id h.shared.peers ≡ load_peer id shared.peers
    pub left :
        h.loop ≡ stopped
        → (h.conn.closed ≡ true) × (load_peer (peer_id w signed) h.shared.peers ≡ none)

  -- What becomes of the buffer, in both cases: its length and the server's id are kept.
  pub record IsHandled (h : Handled) : Type 0 where
    pub buf_len : length h.buf ≡ length s.buf
    pub server_id : slice 72 104 h.buf ≡ slice 72 104 s.buf
    pub conduct : IsTurnedAway h ⊎ IsSession h

  session-IsHandled : (h : Handled) → IsSession h → IsHandled h
  session-IsHandled h v = record {
    buf_len = ap length v.same_buf ∙ v.accepted.intact.len;
    server_id = ap (slice 72 104) v.same_buf ∙ v.accepted.intact.server_id;
    conduct = inr v;
  }

  by_loop :
      (t : AuthState) (r : Loop × Session)
      → Accepted w.verify w.env s t
      → IsGrown w.marshal w.nats_publish
          (encode_to_string (peer_id w t))
          w.max_size
          (length w.rounds)
          shared.published
          r.1.published
      → (peer : Peer)
      → IsSession (after_loop w (peer_id w t) peer t (replace_peer w (peer_id w t) peer shared) r)
  unfolding after_loop
  by_loop t (running, q) a g peer = record {
    signed = t;
    accepted = a;
    same_buf = refl;
    own = g;
    others = λ id d. load-replace_other w (peer_id w t) id peer shared d;
    left = λ e. cc;
  }
  by_loop t (stopped, q) a g peer = record {
    signed = t;
    accepted = a;
    same_buf = refl;
    own = g;
    others = λ id d.
        load-delete_other (peer_id w t) id (replace_peer w (peer_id w t) peer shared).peers d
        ∙ load-replace_other w (peer_id w t) id peer shared d;
    left = λ e.
        (refl, load-delete_self (peer_id w t) (replace_peer w (peer_id w t) peer shared).peers);
  }

  by_peer :
      (t : AuthState)
      → Accepted w.verify w.env s t
      → (o : Error ⊎ Peer)
      → ((e : Error) × (o ≡ inl e))
        ⊎ (o ≡ inr (fresh_peer t.conn (peer_id w t) write_buffer_size write_timeout))
      → IsHandled (with_peer w t (peer_id w t) o shared)
  unfolding with_peer read_loop replace_peer
  by_peer t a o (inl (e, h)) =
      subst (λ x. IsHandled (with_peer w t (peer_id w t) x shared)) (sym h)
        (record {
          buf_len = a.intact.len;
          server_id = a.intact.server_id;
          conduct = inl (record { same = refl; closed = refl });
        })
  by_peer t a o (inr h) =
      subst (λ x. IsHandled (with_peer w t (peer_id w t) x shared)) (sym h)
        (let peer = fresh_peer t.conn (peer_id w t) write_buffer_size write_timeout in
          session-IsHandled _ (
            by_loop t (read_loop w peer t (replace_peer w (peer_id w t) peer shared)) a
              (serve_rounds-IsGrown w.marshal w.nats_publish (encode_to_string (peer_id w t))
                w.max_size w.rounds
                (record {
                  reader = t.conn.reader;
                  buf = w.pool_buf;
                  pooled = empty_message;
                  published = shared.published;
                }))
              peer))

  -- A connection that is open, with a buffer of the right size, clocks of this era and 32 random bytes:
  -- handleConn leaves the buffer's length and the server's id in it as they were, for the next
  -- connection. Either it changes nothing else and closes the connection; or a key has signed this
  -- connection's challenge, all that is published is that key's own, and the peers of all other keys
  -- stay, and once the read loop has returned the connection is closed and the key has no peer.
  pub handle_conn-IsHandled :
      s.conn.closed ≡ false
      → length s.buf ≡ auth_buf_size
      → IsTimely w.env
      → ((random : List ℕ) → w.env.random ≡ inr random → length random ≡ 32)
      → IsHandled (handle_conn w s shared)
  unfolding handle_conn after_auth
  handle_conn-IsHandled open_yet len timely random =
      by_auth (authenticate w.verify w.env s)
        (authenticate-Accepted w.verify w.env s open_yet len timely random)
    where
      by_auth :
          (o : Outcome AuthState (Unit {0}))
          → Ensures
              (λ _ t. Accepted w.verify w.env s t × (t.conn.deadline ≡ none))
              (λ _ t. Intact s t × (t.conn.deadline ≡ none))
              o
          → IsHandled (after_auth w o shared)
      by_auth (err e t) (k, d) = record {
        buf_len = k.len;
        server_id = k.server_id;
        conduct = inl (record { same = refl; closed = refl });
      }
      by_auth (ok u t) (a, d) =
          by_peer t a (new_peer w.subscribe t.conn (peer_id w t) write_buffer_size write_timeout)
            (new_peer_cases w.subscribe t.conn (peer_id w t) write_buffer_size write_timeout)
