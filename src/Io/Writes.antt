-- ===== src/Io/Writes.antt =====
-- A procedure that writes a fixed string of bytes: in full where the writer has room, and otherwise
-- the part that fits, with an error. Such procedures compose.
use sprut.Base.{
  append-nil, [], ℕ, ◌-◌, ◌≤◌, ◌<◌, ◌≡◌, ap, inl, inr, List, ◌++◌, String, arith, length, take,
  length-append, take-append_left, take-append_right, append_assoc, le→leb, lt→leb, Bool-cases, leb,
  leb→le, leb→lt, sym, ◌∙◌,
}
use sprut.Io.{return, Error, short_write, wrap, ok, err, Proc, ◌>>◌, wrapping, Writer, push, write}

pub record Writes (bs : List ℕ) (p : Proc Writer (Unit {0})) : Type 0 where
  pub whole : (w : Writer) → length bs ≤ w.room → p w ≡ ok tt (push bs w)
  pub part :
      (w : Writer) → w.room < length bs → (e : Error) × (p w ≡ err e (push (take w.room bs) w))

pub push-push : (bs cs : List ℕ) (w : Writer) → push cs (push bs w) ≡ push (bs ++ cs) w
push-push bs cs w = ground (arith, append_assoc w.output bs cs, length-append bs cs)

pub write-Writes : (bs : List ℕ) → Writes bs (write bs)
unfolding write
write-Writes bs = record {
  whole = λ w h. rw (le→leb _ _ h);
  part = λ w h. (short_write, rw (lt→leb _ _ h));
}

pub return-Writes : Writes [] (return tt)
return-Writes = record {
  whole = λ w h. ground (arith, append-nil w.output);
  part = λ w h. absurd (omega arith);
}

pub wrapping-Writes :
    (c : String) (bs : List ℕ) (p : Proc Writer (Unit {0})) → Writes bs p → Writes bs (wrapping c p)
wrapping-Writes c bs p v = record {
  whole = λ w h. rw (v.whole w h);
  part = λ w h. let (e, q) = v.part w h in (wrap c e, rw q);
}

pub then-Writes :
    (bs cs : List ℕ) (p q : Proc Writer (Unit {0}))
    → Writes bs p
    → Writes cs q
    → Writes (bs ++ cs) (p >> q)
then-Writes bs cs p q v u = record { whole = whole_then; part = part_then }
  where
    whole_then : (w : Writer) → length (bs ++ cs) ≤ w.room → (p >> q) w ≡ ok tt (push (bs ++ cs) w)
    whole_then w h =
        rw (v.whole w (omega (arith, length-append bs cs))) (
          u.whole (push bs w) (omega (arith, length-append bs cs)) ∙ ap (ok tt) (push-push bs cs w))

    part_then :
        (w : Writer)
        → w.room < length (bs ++ cs)
        → (e : Error) × ((p >> q) w ≡ err e (push (take w.room (bs ++ cs)) w))
    part_then w h = elim (Bool-cases (leb (length bs) w.room)) [
      | inl fits ↦
          let (e, r) = u.part (push bs w) (omega (arith, leb→le _ _ fits, length-append bs cs)) in
          (
            e,
            rw (v.whole w (leb→le _ _ fits)) (
                r
                ∙ ap (err e) (push-push bs (take (w.room - length bs) cs) w)
                ∙ ap (λ x. err e (push x w))
                    (sym (take-append_right w.room bs cs (leb→le _ _ fits)))),
          )
      | inr short ↦
          let (e, r) = v.part w (leb→lt _ _ short) in
          (
            e,
            rw r (
                ap (λ x. err e (push x w))
                  (sym (take-append_left w.room bs cs (omega (arith, leb→lt _ _ short))))),
          )
    ]
