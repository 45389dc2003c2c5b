-- ===== src/Router/Peer/Life.antt =====
-- A peer of pkg/router/peer.go from newPeer on: its writeLoop, the callback of its subscription and
-- calls of Close, in any order.
pub mod Arrivals
pub mod Silent
pub mod Rounds
pub mod Orderly
use sprut.Base.{◌++◌, ◌≡◌, Bool, ℕ, [], ◌∷◌, true, false, List, Option, length, ◌≤◌}
use sprut.Io.{Error, Loop, running, stopped}
use sprut.Router.Peer.{close, handle_nats_message, write_step, Peer}
use sprut.Router.Peer.Sending.{server_frames}

-- What may happen: NATS hands over a message, writeLoop has a round at some time, somebody calls
-- Close. The first argument chooses where two cases of a select are ready.
pub data Happening : Type 0 where
  arrival : Bool → List ℕ → Happening
  round : Bool → ℕ → Happening
  closing : Happening

-- The bodies that arrived, in their order.
abbrev pub arrived : List Happening → List (List ℕ)
arrived [] = []
arrived (arrival pick body ∷ hs) = body ∷ arrived hs
arrived (round pick now ∷ hs) = arrived hs
arrived (closing ∷ hs) = arrived hs

module _ (unsubscribe : Option Error) where
  -- A writeLoop that has returned has no more rounds.
  unfoldable pub write_round : Bool → ℕ → Loop × Peer → Loop × Peer
  write_round pick now (running, p) = write_step pick unsubscribe now p
  write_round pick now (stopped, p) = (stopped, p)

  unfoldable pub happen : Happening → Loop × Peer → Loop × Peer
  unfolding write_round
  happen (arrival pick body) (loop, p) = (loop, handle_nats_message pick unsubscribe body p)
  happen (round pick now) l = write_round pick now l
  happen closing (loop, p) = (loop, close unsubscribe p)

  unfoldable pub happens : List Happening → Loop × Peer → Loop × Peer
  happens [] l = l
  happens (h ∷ hs) l = happens hs (happen h l)

-- What holds of a peer on a connection that showed `out` before, when `bodies` have arrived: its
-- queue is within its capacity; it is closed exactly where its connection is; the connection shows a
-- beginning of the frames of `bodies`.
pub record IsShowing (out : List ℕ) (size : ℕ) (bodies : List (List ℕ)) (p : Peer) : Type 0 where
  pub capacity : p.capacity ≡ size
  pub bounded : length p.write_ch ≤ size
  pub matched : p.conn.closed ≡ p.closed
  pub shown : List ℕ
  pub rest : List ℕ
  pub output : p.conn.writer.output ≡ out ++ shown
  pub beginning : shown ++ rest ≡ server_frames bodies

-- A writeLoop that has returned has left the peer closed; an open peer is to show what it has queued,
-- and has missed nothing.
pub record IsOrderly (out : List ℕ) (size : ℕ) (bodies : List (List ℕ)) (l : Loop × Peer)
    : Type 0 where
  pub showing : IsShowing out size bodies l.1
  pub returned : l.0 ≡ stopped → l.1.closed ≡ true
  pub queued : l.1.closed ≡ false → showing.rest ≡ server_frames l.1.write_ch
