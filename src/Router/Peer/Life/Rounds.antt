-- ===== src/Router/Peer/Life/Rounds.antt =====
-- A round of the writeLoop of pkg/router/peer.go.
use sprut.Base.{
  refl, ◌||◌, ◌&&◌, Bool-cases, append-nil, ◌∙◌, sym, ap, Bool, arith, ◌++◌, ◌≡◌, ℕ, [], ◌∷◌, true,
  false, inl, inr, List, Option, length, ◌≤◌, append_assoc,
}
use sprut.Io.{Error, Outcome, ok, err, Loop, running, stopped}
use sprut.Protocol.ServerMessage
use sprut.Router.Peer.Life.{IsShowing, IsOrderly, write_round}
use sprut.Router.Peer.{is_empty, write_message, looped, take_next, write_step, Peer}
use sprut.Router.Peer.Shown.{write_message-Shows, Adds, Shows, AddsPart}
use sprut.Router.Peer.Sending.{server_frames}
use sprut.Router.Peer.Life.Arrivals.{close-IsOrderly}

module _ (unsubscribe : Option Error) (out : List ℕ) (size : ℕ) where
  module _ (bodies : List (List ℕ)) (body : List ℕ) where
    abbrev frame : List ℕ
    frame = ServerMessage.frame (record { body = body })

    module _ (loop : Loop) (p : Peer) (waiting : List (List ℕ))
        (front : p.write_ch ≡ body ∷ waiting) (i : IsOrderly out size bodies (loop, p)) where
      fewer : (q : Peer) → q.write_ch ≡ waiting → length q.write_ch ≤ size
      fewer q e = omega (arith, i.showing.bounded, ap length front, ap length e)

      -- The first of the queue was written, in part or as a whole.
      part-IsShowing :
          (q : Peer) (part rest : List ℕ)
          → p.closed ≡ false
          → part ++ rest ≡ frame
          → Adds part (record p { write_ch = waiting }) q
          → IsShowing out size bodies q
      part-IsShowing q part rest open_yet split a = record {
        capacity = a.alike.capacity ∙ i.showing.capacity;
        bounded = fewer q a.alike.write_ch;
        matched = a.alike.conn_closed ∙ i.showing.matched ∙ sym a.alike.closed;
        shown = i.showing.shown ++ part;
        rest = rest ++ server_frames waiting;
        output =
            a.output ∙ ap (λ l. l ++ part) i.showing.output ∙ append_assoc out i.showing.shown part;
        beginning =
            append_assoc i.showing.shown part (rest ++ server_frames waiting)
            ∙ ap (λ l. i.showing.shown ++ l)
                (sym (append_assoc part rest (server_frames waiting))
                  ∙ ap (λ l. l ++ server_frames waiting) split
                  ∙ sym (i.queued open_yet ∙ ap server_frames front))
            ∙ i.showing.beginning;
      }

      -- On a closed peer nothing is written.
      silent-IsShowing :
          (q : Peer)
          → p.closed ≡ true
          → AddsPart frame (record p { write_ch = waiting }) q
          → IsShowing out size bodies q
      silent-IsShowing q shut a = record {
        capacity = a.adds.alike.capacity ∙ i.showing.capacity;
        bounded = fewer q a.adds.alike.write_ch;
        matched = a.adds.alike.conn_closed ∙ i.showing.matched ∙ sym a.adds.alike.closed;
        shown = i.showing.shown;
        rest = i.showing.rest;
        output =
            a.adds.output
            ∙ ap (λ l. p.conn.writer.output ++ l) (a.silent (i.showing.matched ∙ shut))
            ∙ append-nil p.conn.writer.output
            ∙ i.showing.output;
        beginning = i.showing.beginning;
      }

      taken-IsOrderly :
          (o : Outcome Peer (Unit {0}))
          → Shows body (record p { write_ch = waiting }) o
          → IsOrderly out size bodies (looped unsubscribe o)
      unfolding looped part-IsShowing
      taken-IsOrderly (ok u q) (open_yet, a) = record {
        showing = part-IsShowing q frame [] (sym i.showing.matched ∙ open_yet) (append-nil frame) a;
        returned = λ e. cc;
        queued = λ e. sym (ap server_frames a.alike.write_ch);
      }
      taken-IsOrderly (err e q) a = elim (Bool-cases p.closed) [
        | inl shut ↦
            close-IsOrderly unsubscribe out size bodies stopped q (silent-IsShowing q shut a)
        | inr open_yet ↦
            close-IsOrderly unsubscribe out size bodies stopped q
              (part-IsShowing q a.part a.rest open_yet a.split a.adds)
      ]

  pub round-IsOrderly :
      (bodies : List (List ℕ)) (pick : Bool) (now : ℕ) (l : Loop × Peer)
      → IsOrderly out size bodies l
      → IsOrderly out size bodies (write_round unsubscribe pick now l)
  unfolding write_round write_step take_next
  round-IsOrderly bodies pick now (stopped, p) i = i
  round-IsOrderly bodies pick now (running, p) i =
      elim (Bool-cases (p.closed && (pick || is_empty p.write_ch))) [
        | inl past ↦
            rw past
              (record { showing = i.showing; returned = λ e. ground arith; queued = i.queued })
        | inr on ↦ rw on (by_queue p.write_ch refl)
      ]
    where
      by_queue :
          (q : List (List ℕ))
          → p.write_ch ≡ q
          → IsOrderly out size bodies (take_next unsubscribe now p q)
      by_queue [] e = i
      by_queue (body ∷ waiting) e =
          taken-IsOrderly bodies body running p waiting e i
            (write_message now body (record p { write_ch = waiting }))
            (write_message-Shows body now (record p { write_ch = waiting }))
