-- ===== src/Client/Loops/Receiving.antt =====
-- What readLoop of pkg/client/client.go delivers from a stream that ends anywhere.
use mathlib.Core.Path.{ap, sym, subst}
use sprut.Base.{
  append_assoc, suc, take, All, ◌&&◌, ◌^◌, append-nil, ◌<◌, length, if_false, if_true, ◌∙◌, refl,
  ◌≡◌, Bool-cases, ◌++◌, ◌⊎◌, ℕ, Bool, [], ◌∷◌, inl, inr, List, Option,
}
use sprut.Io.{err, Outcome, wrap, Reader, Error, Loop, running, stopped}
use sprut.Router.Message.{Message}
use sprut.Client.Loops.{decoded, delivered, returned, read_step, meanwhile, Run}
use sprut.Io.Reads.{reader}
use sprut.Io.Conn.{reading_back, Conn, reading}
use sprut.Protocol.ServerMessage
use sprut.Protocol.ServerMessage.{ServerMessage}
use sprut.Client.Loops.Beginning.{decode-nil, IsFailure, frame, decode-cases}
use sprut.Router.Peer.Sending.{server_frames}
use sprut.Client.Loops.Kept.{
  read_failed-recv, meanwhile-IsKept, close_all-IsKept, read_failed-stopped, handle_error-IsKept,
}

-- What proto.Unmarshal makes of bodies; what it refuses is left out.
abbrev pub understood : Error ⊎ Message → List Message
understood (inl e) = []
understood (inr m) = m ∷ []

abbrev pub parsed : (List ℕ → Error ⊎ Message) → List (List ℕ) → List Message
parsed unmarshal [] = []
parsed unmarshal (body ∷ bodies) = understood (unmarshal body) ++ parsed unmarshal bodies

module _ (on_error : Bool) (close_error : Option Error) (unmarshal : List ℕ → Error ⊎ Message) where
  next_of : (Run → Loop × Run) → Loop × Run → Loop × Run
  next_of f (running, r) = f r
  next_of f (stopped, r) = (stopped, r)

  -- Rounds of readLoop; each has its `pick`, and whether writeLoop closes the connection during it.
  unfoldable pub read_all : List (Bool × Bool) → Run → Loop × Run
  unfolding next_of
  read_all [] r = (running, r)
  read_all ((pick, closing) ∷ rounds) r =
      next_of (read_all rounds) (read_step on_error close_error unmarshal pick closing r)

  -- What a round leaves: it has returned with nothing more received; or it goes on, has received `ms`
  -- and left the rest of the stream.
  abbrev IsRead : Run → List Message → Reader → Loop × Run → Type 0
  IsRead r ms left p =
      ((p.0 ≡ stopped) × (p.1.recv ≡ r.recv))
      ⊎ ((p.0 ≡ running) × (p.1.recv ≡ r.recv ++ ms) × (p.1.conn.reader ≡ left))

  delivered-IsRead :
      (pick : Bool) (r q : Run) (left : Reader) (u : Error ⊎ Message)
      → q.recv ≡ r.recv
      → q.conn.reader ≡ left
      → IsRead r (understood u) left (delivered on_error close_error pick u q)
  unfolding delivered returned
  delivered-IsRead pick r q left (inl e) same at =
      let k = handle_error-IsKept on_error close_error (wrap "unmarshal message" e) q in
      inr (refl, k.recv ∙ same ∙ sym (append-nil r.recv), k.reader ∙ at)
  delivered-IsRead pick r q left (inr m) same at = elim (Bool-cases (q.close_ch && pick)) [
    | inl past ↦ rw past (inl (refl, (close_all-IsKept on_error close_error q).recv ∙ same))
    | inr kept ↦ rw kept (inr (refl, ap (λ l. l ++ (m ∷ [])) same, at))
  ]

  abbrev IsOver : Run → Loop × Run → Type 0
  IsOver r p = (p.0 ≡ stopped) × (p.1.recv ≡ r.recv)

  failure-IsOver :
      (pick closing : Bool) (r : Run) (o : Outcome Conn ServerMessage)
      → (e : Error) (c : Conn) → o ≡ err e c
      → IsOver r (decoded on_error close_error unmarshal pick closing r o)
  unfolding decoded
  failure-IsOver pick closing r o e c h =
      let q = meanwhile on_error close_error closing (record r { conn = c }) in
      subst (λ o. IsOver r (decoded on_error close_error unmarshal pick closing r o)) (sym h)
        (
          read_failed-stopped on_error close_error e q,
          read_failed-recv on_error close_error e q
              ∙ (meanwhile-IsKept on_error close_error closing (record r { conn = c })).recv,
        )

  -- One round on a stream that the decoder cannot read from.
  read_step-IsOver :
      (pick closing : Bool) (r : Run) (pre : List ℕ) (fin : Error)
      → r.conn.reader ≡ reader pre fin
      → IsFailure (ServerMessage.decode (reader pre fin))
      → IsOver r (read_step on_error close_error unmarshal pick closing r)
  unfolding read_step reading returned
  read_step-IsOver pick closing r pre fin at (e, x, h) = elim (Bool-cases r.close_ch) [
    | inl shut ↦
        subst (IsOver r) (sym (if_true _ _ r.close_ch shut))
          (refl, (close_all-IsKept on_error close_error r).recv)
    | inr open_yet ↦ subst (IsOver r) (sym (if_false _ _ r.close_ch open_yet)) (
        failure-IsOver pick closing r _ e _
          (ap (λ y. reading_back r.conn (ServerMessage.decode y)) at ∙ ap (reading_back r.conn) h))
  ]

  -- One round on a stream that is a beginning of a frame and more.
  read_step-IsRead :
      (pick closing : Bool) (r : Run) (body more pre rest : List ℕ) (fin : Error)
      → length body < 2 ^ 32
      → r.conn.reader ≡ reader pre fin
      → pre ++ rest ≡ frame body ++ more
      → IsOver r (read_step on_error close_error unmarshal pick closing r)
        ⊎ ((left : List ℕ) × (left ++ rest ≡ more)
            × IsRead r
                (understood (unmarshal body))
                (reader left fin)
                (read_step on_error close_error unmarshal pick closing r))
  unfolding read_step reading decoded returned
  read_step-IsRead pick closing r body more pre rest fin small at split =
      elim (decode-cases body more pre rest fin small split) [
        | inr failure ↦ inl (read_step-IsOver pick closing r pre fin at failure)
        | inl (left, back, e) ↦
            let c = record r.conn { reader = reader left fin } in
            let q = meanwhile on_error close_error closing (record r { conn = c }) in
            let k = meanwhile-IsKept on_error close_error closing (record r { conn = c }) in
            elim (Bool-cases r.close_ch) [
              | inl shut ↦ inl (
                  subst (IsOver r) (sym (if_true _ _ r.close_ch shut))
                    (refl, (close_all-IsKept on_error close_error r).recv))
              | inr open_yet ↦ inr (
                left,
                back,
                subst (IsRead r (understood (unmarshal body)) (reader left fin))
                    (sym (
                      if_false _ _ r.close_ch open_yet
                      ∙ ap
                          (λ y.
                            decoded on_error close_error unmarshal pick closing r
                              (reading_back r.conn (ServerMessage.decode y)))
                          at
                      ∙ ap
                          (λ o.
                            decoded on_error close_error unmarshal pick closing r
                              (reading_back r.conn o))
                          e))
                    (delivered-IsRead pick r q (reader left fin) (unmarshal body) k.recv k.reader),
              )
            ]
      ]

  over-next :
      (f : Run → Loop × Run) (r : Run) (p : Loop × Run) → IsOver r p → (next_of f p).1.recv ≡ r.recv
  unfolding next_of
  over-next f r (running, q) (e, same) = cc
  over-next f r (stopped, q) (e, same) = same

  -- The first round is followed by rounds that receive a first part of the other bodies.
  step-parsed :
      (rounds : List (Bool × Bool)) (r : Run) (body : List ℕ) (bodies : List (List ℕ))
      (left : Reader) (p : Loop × Run)
      → ((q : Run)
          → q.conn.reader ≡ left
          → (k : ℕ) × ((read_all rounds q).1.recv ≡ q.recv ++ parsed unmarshal (take k bodies)))
      → IsRead r (understood (unmarshal body)) left p
      → (k : ℕ) × ((next_of (read_all rounds) p).1.recv
          ≡ r.recv ++ parsed unmarshal (take k (body ∷ bodies)))
  unfolding next_of
  step-parsed rounds r body bodies left (stopped, q) again (inl (e, same)) =
      (0, same ∙ sym (append-nil r.recv))
  step-parsed rounds r body bodies left (stopped, q) again (inr (e, more, there)) = cc
  step-parsed rounds r body bodies left (running, q) again (inl (e, same)) = cc
  step-parsed rounds r body bodies left (running, q) again (inr (e, got, there)) =
      let (k, all) = again q there in
      (
        suc k,
        all
            ∙ ap (λ l. l ++ parsed unmarshal (take k bodies)) got
            ∙ append_assoc r.recv (understood (unmarshal body)) (parsed unmarshal (take k bodies)),
      )

  -- Rounds on a stream that is a beginning of the frames of `bodies`.
  pub read_all-parsed :
      (rounds : List (Bool × Bool)) (r : Run) (bodies : List (List ℕ)) (pre rest : List ℕ)
      (fin : Error)
      → All (λ body. length body < 2 ^ 32) bodies
      → r.conn.reader ≡ reader pre fin
      → pre ++ rest ≡ server_frames bodies
      → (k : ℕ) × ((read_all rounds r).1.recv ≡ r.recv ++ parsed unmarshal (take k bodies))
  unfolding read_all next_of
  read_all-parsed [] r bodies pre rest fin small at split = (0, sym (append-nil r.recv))
  read_all-parsed ((pick, closing) ∷ rounds) r [] [] rest fin small at split = (
    0,
    over-next (read_all rounds) r _ (read_step-IsOver pick closing r [] fin at (decode-nil fin))
        ∙ sym (append-nil r.recv),
  )
  read_all-parsed ((pick, closing) ∷ rounds) r [] (x ∷ pre) rest fin small at split = cc
  read_all-parsed ((pick, closing) ∷ rounds) r (body ∷ bodies) pre rest fin (one, small) at split =
      elim (read_step-IsRead pick closing r body (server_frames bodies) pre rest fin one at split) [
        | inl over ↦ (0, over-next (read_all rounds) r _ over ∙ sym (append-nil r.recv))
        | inr (left, back, read) ↦
            step-parsed rounds r body bodies (reader left fin)
              (read_step on_error close_error unmarshal pick closing r)
              (λ q there. read_all-parsed rounds q bodies left rest fin small there back) read
      ]
