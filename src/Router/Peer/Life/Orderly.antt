-- ===== src/Router/Peer/Life/Orderly.antt =====
-- What the client of a peer sees, whatever happens to the peer.
use mathlib.Core.Path.{ap, subst}
use sprut.Base.{
  sym, ◌∙◌, arith, refl, ◌≡◌, append-nil, ◌++◌, ℕ, [], ◌∷◌, true, false, List, Option, append_assoc,
}
use sprut.Io.{Error, Loop, running}
use sprut.Router.Peer.Life.{arrived, IsOrderly, happen, happens, Happening, arrival, round, closing}
use sprut.Router.Peer.{Peer}
use sprut.Router.Peer.Life.Arrivals.{close-IsOrderly, arrival-IsOrderly}
use sprut.Router.Peer.Life.Rounds.{round-IsOrderly}
use sprut.Io.Conn.{Conn}
use sprut.Router.Peer.Fresh.{fresh_peer}
use sprut.Router.Peer.Life.Silent.{happens-IsSilent}

arrived-cons :
    (h : Happening) (hs : List Happening) → arrived (h ∷ hs) ≡ arrived (h ∷ []) ++ arrived hs
arrived-cons (arrival pick body) hs = refl
arrived-cons (round pick now) hs = refl
arrived-cons closing hs = refl

module _ (unsubscribe : Option Error) (out : List ℕ) (size : ℕ) where
  happen-IsOrderly :
      (h : Happening) (bodies : List (List ℕ)) (l : Loop × Peer)
      → IsOrderly out size bodies l
      → IsOrderly out size (bodies ++ arrived (h ∷ [])) (happen unsubscribe h l)
  unfolding happen
  happen-IsOrderly (arrival pick body) bodies (loop, p) i =
      arrival-IsOrderly unsubscribe out size bodies body loop p pick i
  happen-IsOrderly (round pick now) bodies l i =
      rw (append-nil bodies) (round-IsOrderly unsubscribe out size bodies pick now l i)
  happen-IsOrderly closing bodies (loop, p) i =
      rw (append-nil bodies) (close-IsOrderly unsubscribe out size bodies loop p i.showing)

  happens-IsOrderly :
      (hs : List Happening) (bodies : List (List ℕ)) (l : Loop × Peer)
      → IsOrderly out size bodies l
      → IsOrderly out size (bodies ++ arrived hs) (happens unsubscribe hs l)
  unfolding happens
  happens-IsOrderly [] bodies l i = rw (append-nil bodies) i
  happens-IsOrderly (h ∷ hs) bodies l i =
      subst (λ bs. IsOrderly out size bs (happens unsubscribe hs (happen unsubscribe h l)))
        (append_assoc bodies (arrived (h ∷ [])) (arrived hs)
          ∙ ap (λ bs. bodies ++ bs) (sym (arrived-cons h hs)))
        (happens-IsOrderly hs (bodies ++ arrived (h ∷ [])) (happen unsubscribe h l)
          (happen-IsOrderly h bodies l i))

fresh-IsOrderly :
    (conn : Conn) (id : List ℕ) (size timeout : ℕ)
    → conn.closed ≡ false
    → IsOrderly conn.writer.output size [] (running, fresh_peer conn id size timeout)
fresh-IsOrderly conn id size timeout open_yet = record {
  showing = record {
    capacity = refl;
    bounded = omega arith;
    matched = open_yet;
    shown = [];
    rest = [];
    output = sym (append-nil conn.writer.output);
    beginning = refl;
  };
  returned = λ e. cc;
  queued = λ e. refl;
}

-- Whatever happens to a new peer on an open connection: its queue stays within the size that it was
-- made with; it is closed exactly where its connection is; what the connection shows is a beginning
-- of the frames of the messages that arrived, in their order, and as long as the peer is open the
-- frames that are missing are those of its queue; where writeLoop has returned, the peer is closed;
-- and once the peer is closed, it stays so and nothing more is shown, whatever happens then.
pub happens-Orderly :
    (unsubscribe : Option Error) (hs later : List Happening) (conn : Conn) (id : List ℕ)
    (size timeout : ℕ)
    → conn.closed ≡ false
    → let l = happens unsubscribe hs (running, fresh_peer conn id size timeout) in
      let m = happens unsubscribe later l in
      IsOrderly conn.writer.output size (arrived hs) l
      × (l.1.closed ≡ true
          → (m.1.closed ≡ true) × (m.1.conn.writer.output ≡ l.1.conn.writer.output))
happens-Orderly unsubscribe hs later conn id size timeout open_yet =
    let l = happens unsubscribe hs (running, fresh_peer conn id size timeout) in
    let i : IsOrderly conn.writer.output size (arrived hs) l =
      happens-IsOrderly unsubscribe conn.writer.output size hs []
        (running, fresh_peer conn id size timeout)
        (fresh-IsOrderly conn id size timeout open_yet) in
    (
      i,
      λ shut.
          let q =
            happens-IsSilent unsubscribe l.1.conn.writer.output later l
              (record { closed = shut; conn_closed = i.showing.matched ∙ shut; output = refl }) in
          (q.closed, q.output),
    )
