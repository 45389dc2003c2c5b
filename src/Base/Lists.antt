-- ===== src/Base/Lists.antt =====
-- Lists measured and cut by native numbers, under the library's names.
use Prim.Native.Nat.{◌<◌, ℕ, zero, suc, ◌+◌, ◌-◌, ◌≤◌, min}
use mathlib.Core.Path.{◌≡◌, refl, sym, ap, ◌∙◌}
use mathlib.Core.List.{append_assoc, List, [], ◌∷◌, ◌++◌}
use native.Mathlib.Omega.{arith}

module _ {ℓ} {A : Type ℓ} where
  abbrev pub length : List A → ℕ
  length [] = 0
  length (x ∷ xs) = suc (length xs)

  abbrev pub take : ℕ → List A → List A
  take zero xs = []
  take (suc n) [] = []
  take (suc n) (x ∷ xs) = x ∷ take n xs

  abbrev pub drop : ℕ → List A → List A
  drop zero xs = xs
  drop (suc n) [] = []
  drop (suc n) (x ∷ xs) = drop n xs

  abbrev pub replicate : ℕ → A → List A
  replicate zero a = []
  replicate (suc n) a = a ∷ replicate n a

  abbrev pub All {κ} : (A → Type κ) → List A → Type κ
  All P [] = Unit {κ}
  All P (x ∷ xs) = P x × All P xs

module _ {ℓ} {A : Type ℓ} where
  pub length-append : (xs ys : List A) → length (xs ++ ys) ≡ length xs + length ys
  length-append [] ys = omega arith
  length-append (x ∷ xs) ys = omega (arith, length-append xs ys)

  pub length-take : (n : ℕ) (xs : List A) → length (take n xs) ≡ min n (length xs)
  length-take zero xs = omega arith
  length-take (suc n) [] = omega arith
  length-take (suc n) (x ∷ xs) = omega (arith, length-take n xs)

  pub length-drop : (n : ℕ) (xs : List A) → length (drop n xs) ≡ length xs - n
  length-drop zero xs = omega arith
  length-drop (suc n) [] = omega arith
  length-drop (suc n) (x ∷ xs) = omega (arith, length-drop n xs)

  pub length-replicate : (n : ℕ) (a : A) → length (replicate n a) ≡ n
  length-replicate zero a = refl
  length-replicate (suc n) a = ap suc (length-replicate n a)

  pub take-append-drop : (n : ℕ) (xs : List A) → take n xs ++ drop n xs ≡ xs
  take-append-drop zero xs = refl
  take-append-drop (suc n) [] = refl
  take-append-drop (suc n) (x ∷ xs) = ap (◌∷◌ x) (take-append-drop n xs)

  -- A cut that falls on the seam, before it and behind it.
  pub take-append_seam : (n : ℕ) (xs ys : List A) → length xs ≡ n → take n (xs ++ ys) ≡ xs
  take-append_seam zero [] ys h = refl
  take-append_seam zero (x ∷ xs) ys h = absurd (omega arith)
  take-append_seam (suc n) [] ys h = absurd (omega arith)
  take-append_seam (suc n) (x ∷ xs) ys h = ap (◌∷◌ x) (take-append_seam n xs ys (omega arith))

  pub drop-append_seam : (n : ℕ) (xs ys : List A) → length xs ≡ n → drop n (xs ++ ys) ≡ ys
  drop-append_seam zero [] ys h = refl
  drop-append_seam zero (x ∷ xs) ys h = absurd (omega arith)
  drop-append_seam (suc n) [] ys h = absurd (omega arith)
  drop-append_seam (suc n) (x ∷ xs) ys h = drop-append_seam n xs ys (omega arith)

  pub take-append_left : (n : ℕ) (xs ys : List A) → n ≤ length xs → take n (xs ++ ys) ≡ take n xs
  take-append_left zero xs ys h = refl
  take-append_left (suc n) [] ys h = absurd (omega arith)
  take-append_left (suc n) (x ∷ xs) ys h = ap (◌∷◌ x) (take-append_left n xs ys (omega arith))

  pub drop-append_left :
      (n : ℕ) (xs ys : List A) → n ≤ length xs → drop n (xs ++ ys) ≡ drop n xs ++ ys
  drop-append_left zero xs ys h = refl
  drop-append_left (suc n) [] ys h = absurd (omega arith)
  drop-append_left (suc n) (x ∷ xs) ys h = drop-append_left n xs ys (omega arith)

  pub take-append_right :
      (n : ℕ) (xs ys : List A) → length xs ≤ n → take n (xs ++ ys) ≡ xs ++ take (n - length xs) ys
  take-append_right n [] ys h = ap (λ k. take k ys) (omega arith)
  take-append_right zero (x ∷ xs) ys h = absurd (omega arith)
  take-append_right (suc n) (x ∷ xs) ys h =
      ap (◌∷◌ x) (take-append_right n xs ys (omega arith) ∙ ap (λ k. xs ++ take k ys) (omega arith))

  pub take_all : (n : ℕ) (xs : List A) → length xs ≤ n → take n xs ≡ xs
  take_all zero [] h = refl
  take_all zero (x ∷ xs) h = absurd (omega arith)
  take_all (suc n) [] h = refl
  take_all (suc n) (x ∷ xs) h = ap (◌∷◌ x) (take_all n xs (omega arith))

  pub drop_all : (n : ℕ) (xs : List A) → length xs ≤ n → drop n xs ≡ []
  drop_all zero [] h = refl
  drop_all zero (x ∷ xs) h = absurd (omega arith)
  drop_all (suc n) [] h = refl
  drop_all (suc n) (x ∷ xs) h = drop_all n xs (omega arith)

  -- Two concatenations agree part by part where their first parts are equally long.
  pub append-injective :
      (xs ys us vs : List A) → length xs ≡ length ys → xs ++ us ≡ ys ++ vs → (xs ≡ ys) × (us ≡ vs)
  append-injective xs ys us vs h e = (
    sym (take-append_seam (length xs) xs us refl)
        ∙ ap (take (length xs)) e
        ∙ take-append_seam (length xs) ys vs (sym h),
    sym (drop-append_seam (length xs) xs us refl)
        ∙ ap (drop (length xs)) e
        ∙ drop-append_seam (length xs) ys vs (sym h),
  )

  -- Two ways to cut one list: the first part of one reaches as far as that of the other, or not.
  pub cut_past :
      (xs ys us vs : List A)
      → length ys ≤ length xs
      → xs ++ us ≡ ys ++ vs
      → (ws : List A) × (xs ≡ ys ++ ws) × (ws ++ us ≡ vs)
  cut_past xs ys us vs h e =
      let n = length ys in
      let (front, back) =
        append-injective (take n xs) ys (drop n xs ++ us) vs (omega (arith, length-take n xs)) (
          sym (append_assoc (take n xs) (drop n xs) us)
          ∙ ap (λ l. l ++ us) (take-append-drop n xs)
          ∙ e) in
      (drop n xs, sym (take-append-drop n xs) ∙ ap (λ l. l ++ drop n xs) front, back)

  pub cut_short :
      (xs ys us vs : List A)
      → length xs < length ys
      → xs ++ us ≡ ys ++ vs
      → xs ≡ take (length xs) ys
  cut_short xs ys us vs h e =
      sym (take-append_seam (length xs) xs us refl)
      ∙ ap (take (length xs)) e
      ∙ take-append_left (length xs) ys vs (omega arith)

  pub All-append {κ} : (P : A → Type κ) (xs ys : List A) → All P xs → All P ys → All P (xs ++ ys)
  All-append P [] ys h k = k
  All-append P (x ∷ xs) ys (p, h) k = (p, All-append P xs ys h k)
