-- ===== src/Protocol/Transmits.antt =====
-- ReadMessageType of pkg/protocol/auth.go, and what it is for an encoder and a decoder to fit.
use sprut.Base.{◌++◌, ℕ, ap, ◌≡◌, refl, List, [], ◌∷◌, Bool, false}
use sprut.Io.{ok, Error, Proc, ◌>>=◌, ◌>>◌, return, fail_if, Reader, read_full, Writer}
use sprut.Io.Writes.{Writes}
use sprut.Io.Reads.{Reads, reader, read_full-Reads, return-Reads, bind-Reads}

first_byte : List ℕ → ℕ
first_byte [] = 0
first_byte (b ∷ bs) = b

unfoldable pub read_message_type : Proc Reader ℕ
unfolding first_byte
read_message_type = do t ← read_full 1; return (first_byte t)

pub read_message_type-Reads : (t : ℕ) → Reads (t ∷ []) t read_message_type
unfolding read_message_type
read_message_type-Reads t =
    bind-Reads (t ∷ []) [] (t ∷ []) t (read_full 1) (λ bs. return (first_byte bs))
      (read_full-Reads 1 (t ∷ []) refl) (return-Reads t)

-- A guard that does not fire is passed.
pub pass-Writes :
    (test : Bool) (e : Error) (bs : List ℕ) (p : Proc Writer (Unit {0}))
    → test ≡ false
    → Writes bs p
    → Writes bs (fail_if test e >> p)
pass-Writes test e bs p h v = record {
  whole = λ w l. rw h (v.whole w l);
  part = λ w l. let (x, q) = v.part w l in (x, rw h q);
}

pub pass-Reads :
    {A : Type 0} (test : Bool) (e : Error) (bs : List ℕ) (a : A) (p : Proc Reader A)
    → test ≡ false
    → Reads bs a p
    → Reads bs a (fail_if test e >> p)
pass-Reads test e bs a p h v = record {
  whole = λ rest x. rw h (v.whole rest x);
  part = λ n x l. let (y, r, q) = v.part n x l in (y, r, rw h q);
}

-- The last step of a decoder puts the value together.
pub finish-Reads :
    {A B : Type 0} (bs : List ℕ) (a : A) (p : Proc Reader A) (g : A → B) (b : B)
    → g a ≡ b
    → Reads bs a p
    → Reads bs b (p >>= λ x. return (g x))
finish-Reads bs a p g b h v = record {
  whole = λ rest x. rw (v.whole rest x) (ap (λ y. ok y (reader rest x)) h);
  part = λ n x l. let (y, r, q) = v.part n x l in (y, r, rw q);
}

-- `encode` writes the bytes `front ++ bs`, and out of `bs` `decode` reads `b`: `Writes` says what is
-- written where the writer has room and where not, `Reads` that `decode` takes just these bytes,
-- whatever follows, and that it fails where the stream ends inside them.
pub record Transmits {A : Type 0} (front bs : List ℕ) (b : A) (encode : Proc Writer (Unit {0}))
    (decode : Proc Reader A) : Type 0 where
  pub written : Writes (front ++ bs) encode
  pub read : Reads bs b decode
