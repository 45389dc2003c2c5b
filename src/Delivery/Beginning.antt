-- ===== src/Delivery/Beginning.antt =====
-- What a recipient gets whatever goes wrong: its peer in pkg/router/peer.go from newPeer on, under any
-- course of events, and readLoop of pkg/client/client.go on what the peer's connection shows.
use mathlib.Core.Path.{ap, conn}
use sprut.Base.{
  refl, ◌∙◌, ◌++◌, ◌≡◌, ◌⊎◌, ℕ, Bool, [], false, List, Option, length, take, ◌<◌, ◌^◌, All,
}
use sprut.Io.{Error, running}
use sprut.Client.Loops.{Run}
use sprut.Router.Message.{Message}
use sprut.Router.Peer.Life.{arrived, happens, Happening}
use sprut.Router.Peer.{Peer}
use sprut.Io.Conn.{Conn}
use sprut.Client.Loops.Receiving.{read_all-parsed, parsed, read_all}
use sprut.Router.Peer.Fresh.{fresh_peer}
use sprut.Io.Reads.{reader}
use sprut.Router.Peer.Life.Orderly.{happens-Orderly}

-- The recipient, when its peer has lived through the happenings and the stream from it ends with
-- `fin`, after some rounds of its readLoop.
unfoldable pub recipient :
    Bool
    → Option Error
    → Option Error
    → (List ℕ → Error ⊎ Message)
    → Peer
    → List Happening
    → Error
    → List (Bool × Bool)
    → Run
    → Run
recipient on_error close_error unsubscribe unmarshal p hs fin rounds b =
    let q = (happens unsubscribe hs (running, p)).1 in
    (read_all on_error close_error unmarshal rounds
      (record b { conn = record b.conn { reader = reader q.conn.writer.output fin } })).1

-- Behind `before`, `after` has just what some first part of `bodies` holds.
pub record IsBeginning (unmarshal : List ℕ → Error ⊎ Message) (bodies : List (List ℕ))
    (before after : List Message) : Type 0 where
  pub handed_on : ℕ
  pub received : after ≡ before ++ parsed unmarshal (take handed_on bodies)

-- Whatever happens to a new peer (messages arrive while its queue is full, writes fail, the connection
-- is closed at any time) and whatever closes its client's readLoop: the application receives what a
-- first part of the bodies that NATS handed over holds, in their order and each once; only bodies that
-- protobuf does not understand are left out of it. No body has 4 GB.
pub recipient-IsBeginning :
    (on_error : Bool) (close_error unsubscribe : Option Error)
    (unmarshal : List ℕ → Error ⊎ Message) (conn : Conn) (id : List ℕ) (size timeout : ℕ)
    (hs : List Happening) (fin : Error) (rounds : List (Bool × Bool)) (b : Run)
    → conn.closed ≡ false
    → conn.writer.output ≡ []
    → All (λ body. length body < 2 ^ 32) (arrived hs)
    → IsBeginning unmarshal
        (arrived hs)
        b.recv
        (recipient on_error close_error unsubscribe unmarshal
          (fresh_peer conn id size timeout)
          hs
          fin
          rounds
          b).recv
unfolding recipient
recipient-IsBeginning on_error close_error unsubscribe unmarshal conn id size timeout hs fin rounds
      b open_yet unsent small =
    let i = (happens-Orderly unsubscribe hs [] conn id size timeout open_yet).0.showing in
    let (k, all) =
      read_all-parsed on_error close_error unmarshal rounds _ (arrived hs) _ i.rest fin small refl
        (ap (λ l. l ++ i.rest) (i.output ∙ ap (λ l. l ++ i.shown) unsent) ∙ i.beginning) in
    record { handed_on = k; received = all }
