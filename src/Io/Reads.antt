-- ===== src/Io/Reads.antt =====
-- A procedure that reads a fixed string of bytes and returns a fixed value, whatever follows, and
-- that fails on every proper prefix of the string. Such procedures compose.
use sprut.Base.{
  ℕ, ◌-◌, ◌<◌, ◌≡◌, refl, inl, inr, List, [], ◌++◌, String, arith, length, take, length-append,
  take-append_left, take-append_right, append_assoc, le→leb, lt→leb, Bool-cases, leb, leb→le,
  leb→lt, length-take, take-append_seam, drop-append_seam,
}
use sprut.Io.{Error, wrap, ok, err, Proc, ◌>>=◌, wrapping, Reader, read_full, read_error, return}

abbrev pub reader : List ℕ → Error → Reader
reader bs e = record { pending = bs; fin = e }

pub record Reads {A : Type 0} (bs : List ℕ) (a : A) (p : Proc Reader A) : Type 0 where
  pub whole : (rest : List ℕ) (e : Error) → p (reader (bs ++ rest) e) ≡ ok a (reader rest e)
  pub part :
      (n : ℕ) (e : Error)
      → n < length bs
      → (x : Error) × (r : Reader) × (p (reader (take n bs) e) ≡ err x r)

pub read_full-Reads : (n : ℕ) (bs : List ℕ) → length bs ≡ n → Reads bs bs (read_full n)
unfolding read_full
read_full-Reads n bs h = record {
  whole = λ rest e.
      rw (le→leb n (length (bs ++ rest)) (omega (arith, length-append bs rest)))
        (rw (take-append_seam n bs rest h, drop-append_seam n bs rest h));
  part = λ k e l. (
    read_error (take k bs) e,
    reader [] e,
    rw (lt→leb n (length (take k bs)) (omega (arith, length-take k bs))),
  );
}

pub return-Reads : {A : Type 0} (a : A) → Reads [] a (return a)
return-Reads a = record { whole = λ rest e. refl; part = λ n e h. absurd (omega arith) }

pub wrapping-Reads :
    {A : Type 0} (c : String) (bs : List ℕ) (a : A) (p : Proc Reader A)
    → Reads bs a p
    → Reads bs a (wrapping c p)
wrapping-Reads c bs a p v = record {
  whole = λ rest e. rw (v.whole rest e);
  part = λ n e h. let (x, r, q) = v.part n e h in (wrap c x, r, rw q);
}

pub bind-Reads :
    {A B : Type 0} (bs cs : List ℕ) (a : A) (b : B) (p : Proc Reader A) (f : A → Proc Reader B)
    → Reads bs a p
    → Reads cs b (f a)
    → Reads (bs ++ cs) b (p >>= f)
bind-Reads {A} {B} bs cs a b p f v u = record {
  whole = λ rest e. rw (append_assoc bs cs rest) (rw (v.whole (cs ++ rest) e) (u.whole rest e));
  part = part_bind;
}
  where
    part_bind :
        (n : ℕ) (e : Error)
        → n < length (bs ++ cs)
        → (x : Error) × (r : Reader) × ((p >>= f) (reader (take n (bs ++ cs)) e) ≡ err x r)
    part_bind n e h = elim (Bool-cases (leb (length bs) n)) [
      | inl past ↦
          let (x, r, q) =
            u.part (n - length bs) e (omega (arith, leb→le _ _ past, length-append bs cs)) in
          (
            x,
            r,
            rw (take-append_right n bs cs (leb→le _ _ past))
                (rw (v.whole (take (n - length bs) cs) e) q),
          )
      | inr short ↦
          let (x, r, q) = v.part n e (leb→lt _ _ short) in
          (x, r, rw (take-append_left n bs cs (omega (arith, leb→lt _ _ short))) (rw q))
    ]
