-- ===== src/Router/Peer/Oversize.antt =====
-- A message that the sender may send and the recipient cannot be sent.
use sprut.Protocol.ServerMessage.{server_message_too_large}
use mathlib.Core.Path.{sym, subst}
use sprut.Router.Peer.{
  is_empty, Loop, looped, take_next, is_stale, stopped, refreshed, refresh_deadline, send_frame,
  write_message, Peer, write_step, close,
}
use sprut.Base.{
  ◌||◌, ◌&&◌, ◌+◌, some, ◌∙◌, inr, inl, refl, if◌then◌else◌, ◌∷◌, Bool-cases, true, length, false,
  ◌≡◌, ◌<◌, ℕ, Option, List, Bool,
}
use sprut.Io.Conn.{writer_of-output, writer_of, writing, set_deadline}
use sprut.Protocol.{max_message_size}
use sprut.Io.Ensures.{Ensures-map, Ensures-and_then, Ensures}
use sprut.Io.{Outcome, ok, net_closed, err, Error}

-- What a peer shows on the wire.
abbrev pub output_of : Peer → List ℕ
output_of p = p.conn.writer.output

refresh_deadline-output :
    (now : ℕ) (p : Peer)
    → Ensures
        (λ _ q. output_of q ≡ output_of p)
        (λ _ q. output_of q ≡ output_of p)
        (refresh_deadline now p)
unfolding refresh_deadline set_deadline
refresh_deadline-output now p = elim (Bool-cases (is_stale now p.write_timeout p.last_deadline)) [
  | inl stale ↦ rw stale (by_closed p.conn.closed)
  | inr recent ↦ rw recent refl
]
  where
    by_closed :
        (b : Bool)
        → Ensures
            (λ _ q. output_of q ≡ output_of p)
            (λ _ q. output_of q ≡ output_of p)
            (refreshed now p (
              if b
              then err net_closed p.conn
              else ok tt (record p.conn { deadline = some (now + p.write_timeout) })))
    by_closed true = refl
    by_closed false = refl

-- No value satisfies this, so a computation that ensures it ends with an error.
abbrev Fails : Unit {0} → Peer → Type 0
Fails a q = ⊥

send_frame-Fails :
    (body : List ℕ) (p : Peer)
    → max_message_size < length body
    → Ensures Fails (λ _ q. output_of q ≡ output_of p) (send_frame body p)
unfolding send_frame writing
send_frame-Fails body p h =
    rw (server_message_too_large (record { body = body }) (writer_of p.conn) h)
      (writer_of-output p.conn)

write_message-Fails :
    (now : ℕ) (body : List ℕ) (p : Peer)
    → max_message_size < length body
    → Ensures Fails (λ _ q. output_of q ≡ output_of p) (write_message now body p)
unfolding write_message
write_message-Fails now body p h =
    Ensures-and_then (λ _ q. output_of q ≡ output_of p) Fails (λ _ q. output_of q ≡ output_of p)
      (refresh_deadline now p) _ (refresh_deadline-output now p)
      (λ a q e.
        Ensures-map Fails Fails (λ _ r. output_of r ≡ output_of q)
          (λ _ r. output_of r ≡ output_of p) (send_frame body q) (λ x r f. f) (λ x r f. f ∙ e)
          (send_frame-Fails body q h))

pub close-closed :
    (unsubscribe : Option Error) (p : Peer)
    → ((close unsubscribe p).closed ≡ true) × (output_of (close unsubscribe p) ≡ output_of p)
unfolding close
close-closed unsubscribe p = elim (Bool-cases p.closed) [
  | inl shut ↦ rw shut (refl, refl)
  | inr open_yet ↦ rw open_yet (refl, refl)
]

-- The loop has returned, the peer is closed, and its client has seen no more than `out`.
abbrev Ends : List ℕ → Loop × Peer → Type 0
Ends out (loop, q) = (loop ≡ stopped) × (q.closed ≡ true) × (output_of q ≡ out)

looped-Fails :
    (unsubscribe : Option Error) (out : List ℕ) (o : Outcome Peer (Unit {0}))
    → Ensures Fails (λ _ q. output_of q ≡ out) o
    → Ends out (looped unsubscribe o)
unfolding looped
looped-Fails unsubscribe out (ok a q) h = absurd h
looped-Fails unsubscribe out (err e q) h =
    let (shut, same) = close-closed unsubscribe q in (refl, shut, same ∙ h)

-- An open peer whose next queued message is longer than 64 KB is closed by the write loop, and
-- nothing of the message reaches its client.
pub write_step-oversized :
    (pick : Bool) (unsubscribe : Option Error) (now : ℕ) (p : Peer) (body : List ℕ)
    (rest : List (List ℕ))
    → p.closed ≡ false
    → p.write_ch ≡ body ∷ rest
    → max_message_size < length body
    → let (loop, q) = write_step pick unsubscribe now p in
      (loop ≡ stopped) × (q.closed ≡ true) × (output_of q ≡ output_of p)
unfolding write_step take_next
write_step-oversized pick unsubscribe now p body rest open_yet queued h =
    by_closed p.closed open_yet
  where
    taken : Ends (output_of p) (take_next unsubscribe now p p.write_ch)
    taken =
        subst (λ l. Ends (output_of p) (take_next unsubscribe now p l)) (sym queued)
          (looped-Fails unsubscribe (output_of p)
            (write_message now body (record p { write_ch = rest }))
            (write_message-Fails now body (record p { write_ch = rest }) h))

    by_closed :
        (b : Bool)
        → b ≡ false
        → Ends (output_of p) (
            if b && (pick || is_empty p.write_ch)
            then (stopped, p)
            else take_next unsubscribe now p p.write_ch)
    by_closed true e = cc
    by_closed false e = taken
