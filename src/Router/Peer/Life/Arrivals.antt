-- ===== src/Router/Peer/Life/Arrivals.antt =====
-- A peer of pkg/router/peer.go that is closed, or to which NATS hands over a message.
use sprut.Base.{
  ltb→lt, ◌&&◌, append-nil, length-append, sym, ltb, refl, ap, Bool-cases, arith, ◌∙◌, ◌++◌, Bool,
  ◌≡◌, ℕ, [], ◌∷◌, true, false, inl, inr, if◌then◌else◌, List, Option, length, ◌<◌, ◌≤◌,
  append_assoc,
}
use sprut.Io.{Error, Loop}
use sprut.Protocol.ServerMessage
use sprut.Router.Peer.Life.{IsShowing, IsOrderly}
use sprut.Router.Peer.{enqueue, handle_nats_message, Peer, close}
use sprut.Router.Peer.Sending.{server_frames}
use sprut.Router.Peer.Oversize.{close-closed}

server_frames-append :
    (xs ys : List (List ℕ)) → server_frames (xs ++ ys) ≡ server_frames xs ++ server_frames ys
server_frames-append [] ys = refl
server_frames-append (x ∷ xs) ys =
    ap (λ l. ServerMessage.frame (record { body = x }) ++ l) (server_frames-append xs ys)
    ∙ sym (
        append_assoc (ServerMessage.frame (record { body = x })) (server_frames xs)
          (server_frames ys))

server_frames-snoc :
    (xs : List (List ℕ)) (x : List ℕ)
    → server_frames (xs ++ (x ∷ [])) ≡ server_frames xs ++ ServerMessage.frame (record { body = x })
server_frames-snoc xs x =
    server_frames-append xs (x ∷ [])
    ∙ ap (λ l. server_frames xs ++ l) (append-nil (ServerMessage.frame (record { body = x })))

close-alike :
    (unsubscribe : Option Error) (p : Peer)
    → ((close unsubscribe p).write_ch ≡ p.write_ch) × ((close unsubscribe p).capacity ≡ p.capacity)
unfolding close
close-alike unsubscribe p = elim (Bool-cases p.closed) [
  | inl shut ↦ rw shut (refl, refl)
  | inr open_yet ↦ rw open_yet (refl, refl)
]

close-matched :
    (unsubscribe : Option Error) (p : Peer)
    → p.conn.closed ≡ p.closed
    → (close unsubscribe p).conn.closed ≡ true
unfolding close
close-matched unsubscribe p m = elim (Bool-cases p.closed) [
  | inl shut ↦ rw shut (m ∙ shut)
  | inr open_yet ↦ rw open_yet refl
]

module _ (unsubscribe : Option Error) (out : List ℕ) (size : ℕ) where
  pub close-IsOrderly :
      (bodies : List (List ℕ)) (loop : Loop) (p : Peer)
      → IsShowing out size bodies p
      → IsOrderly out size bodies (loop, close unsubscribe p)
  close-IsOrderly bodies loop p i =
      let (shut, same) = close-closed unsubscribe p in
      let (ch, cap) = close-alike unsubscribe p in
      record {
        showing = record {
          capacity = cap ∙ i.capacity;
          bounded = rw ch i.bounded;
          matched = close-matched unsubscribe p i.matched ∙ sym shut;
          shown = i.shown;
          rest = i.rest;
          output = same ∙ i.output;
          beginning = i.beginning;
        };
        returned = λ e. shut;
        queued = λ e. cc;
      }

  module _ (bodies : List (List ℕ)) (body : List ℕ) where
    abbrev frame : List ℕ
    frame = ServerMessage.frame (record { body = body })

    -- One more has arrived.
    more-IsShowing :
        (p q : Peer)
        → IsShowing out size bodies p
        → q.capacity ≡ p.capacity
        → length q.write_ch ≤ size
        → q.conn ≡ p.conn
        → q.closed ≡ p.closed
        → IsShowing out size (bodies ++ (body ∷ [])) q
    more-IsShowing p q i cap room conn closed = record {
      capacity = cap ∙ i.capacity;
      bounded = room;
      matched = ap (λ c. c.closed) conn ∙ i.matched ∙ sym closed;
      shown = i.shown;
      rest = i.rest ++ frame;
      output = ap (λ c. c.writer.output) conn ∙ i.output;
      beginning =
          sym (append_assoc i.shown i.rest frame)
          ∙ ap (λ l. l ++ frame) i.beginning
          ∙ sym (server_frames-snoc bodies body);
    }

    -- A closed peer may drop it, an open one has queued it.
    dropped-IsOrderly :
        (loop : Loop) (p : Peer)
        → p.closed ≡ true
        → IsShowing out size bodies p
        → IsOrderly out size (bodies ++ (body ∷ [])) (loop, p)
    dropped-IsOrderly loop p shut i = record {
      showing = more-IsShowing p p i refl i.bounded refl refl;
      returned = λ e. shut;
      queued = λ e. cc;
    }

    enqueue-IsOrderly :
        (loop : Loop) (p : Peer)
        → length p.write_ch < p.capacity
        → IsOrderly out size bodies (loop, p)
        → IsOrderly out size (bodies ++ (body ∷ [])) (loop, enqueue body p)
    unfolding enqueue more-IsShowing
    enqueue-IsOrderly loop p room i = record {
      showing =
          more-IsShowing p (enqueue body p) i.showing refl
            (omega (arith, i.showing.capacity, room, length-append p.write_ch (body ∷ []))) refl
            refl;
      returned = i.returned;
      queued = λ e. ap (λ l. l ++ frame) (i.queued e) ∙ sym (server_frames-snoc p.write_ch body);
    }

    pub arrival-IsOrderly :
        (loop : Loop) (p : Peer) (pick : Bool)
        → IsOrderly out size bodies (loop, p)
        → IsOrderly out size
            (bodies ++ (body ∷ []))
            (loop, handle_nats_message pick unsubscribe body p)
    unfolding handle_nats_message
    arrival-IsOrderly loop p pick i = elim (Bool-cases (ltb (length p.write_ch) p.capacity)) [
      | inl room ↦ rw room (elim (Bool-cases (p.closed && pick)) [
        | inl past ↦ rw past (dropped-IsOrderly loop p (ground arith) i.showing)
        | inr taken ↦ rw taken (enqueue-IsOrderly loop p (ltb→lt _ _ room) i)
      ])
      | inr full ↦ rw full (by_closed p.closed refl)
    ]
      where
        by_closed :
            (b : Bool)
            → p.closed ≡ b
            → IsOrderly out size
                (bodies ++ (body ∷ []))
                (loop, if b then p else close unsubscribe p)
        by_closed true shut = dropped-IsOrderly loop p shut i.showing
        by_closed false open_yet =
            dropped-IsOrderly loop (close unsubscribe p) (close-closed unsubscribe p).0
              (close-IsOrderly bodies loop p i.showing).showing
