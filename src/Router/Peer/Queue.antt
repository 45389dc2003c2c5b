-- ===== src/Router/Peer/Queue.antt =====
-- The queue of a peer: bounded, in order, and what ends a slow or an oversized one.
use sprut.Router.Peer.{Peer, close, handle_nats_message}
use sprut.Base.{
  true, ◌⊎◌, [], ◌∷◌, ◌++◌, length-append, ◌<◌, arith, ◌≤◌, false, ◌≡◌, length, ℕ, List, Option,
  Bool,
}
use sprut.Io.{Error}

-- While a peer is open, a message from NATS is queued behind the others if there is room; where there
-- is none the peer is closed and its connection with it, and the queue stays as it was.
handle_nats_message-open :
    (pick : Bool) (unsubscribe : Option Error) (body : List ℕ) (p : Peer)
    → p.closed ≡ false
    → let q = handle_nats_message pick unsubscribe body p in
      ((length p.write_ch < p.capacity)
        × (q.write_ch ≡ p.write_ch ++ (body ∷ []))
        × (q.closed ≡ false))
      ⊎ ((p.capacity ≤ length p.write_ch)
          × (q.write_ch ≡ p.write_ch)
          × (q.closed ≡ true)
          × (q.conn.closed ≡ true))
unfolding handle_nats_message close
handle_nats_message-open pick unsubscribe body p h = ground arith

-- The queue never outgrows the channel's capacity.
handle_nats_message-bounded :
    (pick : Bool) (unsubscribe : Option Error) (body : List ℕ) (p : Peer)
    → length p.write_ch ≤ p.capacity
    → length (handle_nats_message pick unsubscribe body p).write_ch ≤ p.capacity
unfolding handle_nats_message close
handle_nats_message-bounded pick unsubscribe body p h =
    ground (arith, length-append p.write_ch (body ∷ []))
