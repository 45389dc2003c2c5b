-- ===== src/Router/Accepting/Taken.antt =====
-- A handler that comes to its end in the accept loop of pkg/router/router.go, and the others.
use mathlib.Core.Path.{ap, subst}
use sprut.Base.{refl, ℕ, ◌≡◌, [], ◌∷◌, none, some, zero, suc, List, Option, All, length}
use sprut.Router.Accepting.{take_out}

-- What is taken out of a list had the property of all, and the others keep it.
pub record IsTaken {A : Type 0} (P : A → Type 0) (xs : List A) (p : A × List A) : Type 0 where
  pub one : P p.0
  pub rest : All P p.1
  pub counted : length xs ≡ suc (length p.1)

pub take_out-IsTaken :
    {A : Type 0} (P : A → Type 0) (k : ℕ) (xs : List A) (p : A × List A)
    → All P xs
    → take_out k xs ≡ some p
    → IsTaken P xs p
unfolding take_out
take_out-IsTaken {A} P k [] p h e = cc
take_out-IsTaken {A} P zero (x ∷ xs) p (h, hs) e =
    let same : (x, xs) ≡ p = cc in
    subst (IsTaken P (x ∷ xs)) same (record { one = h; rest = hs; counted = refl })
take_out-IsTaken {A} P (suc k) (x ∷ xs) p (h, hs) e =
    by_rest (take_out k xs) (λ q f. take_out-IsTaken P k xs q hs f) e
  where
    by_rest :
        (o : Option (A × List A))
        → ((q : A × List A) → o ≡ some q → IsTaken P xs q)
        → elim o as (λ _. Option (A × List A)) [ none ↦ none | some (y, ys) ↦ some (y, x ∷ ys) ]
          ≡ some p
        → IsTaken P (x ∷ xs) p
    by_rest none f e = cc
    by_rest (some (y, ys)) f e =
        let t = f (y, ys) refl in
        let same : (y, x ∷ ys) ≡ p = cc in
        subst (IsTaken P (x ∷ xs)) same
          (record { one = t.one; rest = (h, t.rest); counted = ap suc t.counted })
