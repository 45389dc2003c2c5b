-- ===== src/Io/Ensures.antt =====
-- What holds when a computation ends: `P` of its value and state, or `E` of its error and state.
use sprut.Io.{wrap_outcome, err, wrap, and_then, Proc, String, ok, Error, Outcome}
use sprut.Base.{ap, ◌≡◌}

abbrev pub Ensures {ℓ κ υ} :
    {S : Type ℓ} {A : Type κ} → (A → S → Type υ) → (Error → S → Type υ) → Outcome S A → Type υ
Ensures P E (ok a s) = P a s
Ensures P E (err e s) = E e s

module _ {ℓ κ υ} {S : Type ℓ} {A : Type κ} where
  -- The rule for a sequence: a midway condition `Q`.
  pub Ensures-and_then {χ} :
      {B : Type χ} (Q : A → S → Type υ) (P : B → S → Type υ) (E : Error → S → Type υ)
      (o : Outcome S A) (f : A → Proc S B)
      → Ensures Q E o
      → ((a : A) (s : S) → Q a s → Ensures P E (f a s))
      → Ensures P E (and_then o f)
  Ensures-and_then Q P E (ok a s) f h k = k a s h
  Ensures-and_then Q P E (err e s) f h k = h

  pub Ensures-wrap :
      (P : A → S → Type υ) (E F : Error → S → Type υ) (c : String) (o : Outcome S A)
      → ((e : Error) (s : S) → E e s → F (wrap c e) s)
      → Ensures P E o
      → Ensures P F (wrap_outcome c o)
  Ensures-wrap P E F c (ok a s) k h = h
  Ensures-wrap P E F c (err e s) k h = k e s h

  -- A weaker condition.
  pub Ensures-map :
      (P Q : A → S → Type υ) (E F : Error → S → Type υ) (o : Outcome S A)
      → ((a : A) (s : S) → P a s → Q a s)
      → ((e : Error) (s : S) → E e s → F e s)
      → Ensures P E o
      → Ensures Q F o
  Ensures-map P Q E F (ok a s) f g h = f a s h
  Ensures-map P Q E F (err e s) f g h = g e s h

-- A step that is known to succeed, in front of the rest, and under a wrapped error.
pub and_then-ok {ℓ κ υ} :
    {S : Type ℓ} {A : Type κ} {B : Type υ} {o : Outcome S A} {a : A} {s : S} (f : A → Proc S B)
    → o ≡ ok a s
    → and_then o f ≡ f a s
and_then-ok f e = ap (λ o. and_then o f) e

pub wrap_outcome-ok {ℓ κ} :
    {S : Type ℓ} {A : Type κ} {o : Outcome S A} {a : A} {s : S} (c : String)
    → o ≡ ok a s
    → wrap_outcome c o ≡ ok a s
wrap_outcome-ok c e = ap (wrap_outcome c) e
