-- ===== src/Programs/Numbers.antt =====
-- The numbers that both examples print: their decimal digits.
use sprut.Programs.{add_one, digits, decimal, print_int64}
use sprut.Base.{
  drop, All, ◌%◌, length-append, ap, ltb, Bool-cases, ◌∙◌, refl, lt→ltb, ◌-◌, sym, ◌/◌, arith, ◌++◌,
  ◌+◌, ◌≤◌, ◌≡◌, ◌^◌, List, length, ◌<◌, ◌*◌, ℕ, [], ◌∷◌, inl, inr, zero, suc, if◌then◌else◌,
}

-- The number that digits stand for.
value : ℕ → List ℕ → ℕ
value n [] = n
value n (c ∷ s) = value (n * 10 + (c - b'0')) s

value-append : (n : ℕ) (xs ys : List ℕ) → value n (xs ++ ys) ≡ value (value n xs) ys
unfolding value
value-append n [] ys = refl
value-append n (x ∷ xs) ys = value-append (n * 10 + (x - b'0')) xs ys

limit : ℕ → ℕ
limit zero = 1
limit (suc f) = 10 * limit f

digits_end :
    (f n : ℕ) (rest : List ℕ)
    → value 0 rest ≡ n / 10
    → value 0 (if ltb n 10 then (b'0' + n) ∷ [] else rest ++ ((b'0' + n % 10) ∷ [])) ≡ n
unfolding value
digits_end f n rest h = elim (Bool-cases (ltb n 10)) [
  | inl small ↦ rw small (omega arith)
  | inr big ↦ rw (big, value-append 0 rest ((b'0' + n % 10) ∷ []), h) (omega arith)
]

value-digits : (f n : ℕ) → n < limit f → value 0 (digits f n) ≡ n
unfolding value digits limit
value-digits zero n h = omega (arith, h)
value-digits (suc f) n h =
    digits_end f n (digits f (n / 10)) (value-digits f (n / 10) (omega (arith, h)))

decimal-injective : (m n : ℕ) → m < 2 ^ 64 → n < 2 ^ 64 → decimal m ≡ decimal n → m ≡ n
unfolding decimal limit
decimal-injective m n h k e =
    sym (value-digits 20 m (omega arith)) ∙ ap (value 0) e ∙ value-digits 20 n (omega arith)

print-positive : (n : ℕ) → n < 2 ^ 63 → print_int64 n ≡ decimal n
unfolding print_int64
print-positive n h = rw (lt→ltb n (2 ^ 63) h) refl

print-injective : (m n : ℕ) → m < 2 ^ 63 → n < 2 ^ 63 → print_int64 m ≡ print_int64 n → m ≡ n
print-injective m n h k e =
    decimal-injective m n (omega arith) (omega arith)
      (sym (print-positive m h) ∙ e ∙ print-positive n k)

digits-short : (f n : ℕ) → length (digits f n) ≤ f
unfolding digits
digits-short zero n = omega arith
digits-short (suc f) n = elim (Bool-cases (ltb n 10)) [
  | inl small ↦ rw small (omega arith)
  | inr big ↦
      rw (big, length-append (digits f (n / 10)) ((b'0' + n % 10) ∷ []))
        (omega (arith, digits-short f (n / 10)))
]

pub print-short : (n : ℕ) → n < 2 ^ 63 → length (print_int64 n) ≤ 20
unfolding decimal
print-short n h = rw (print-positive n h) (digits-short 20 n)

pub add_one-small : (n : ℕ) → suc n < 2 ^ 63 → add_one n ≡ suc n
unfolding add_one
add_one-small n h = omega arith

abbrev pub Distinct {ℓ} : {A : Type ℓ} → List A → Type ℓ
Distinct [] = Unit
Distinct (x ∷ xs) = All (λ y. ¬ (x ≡ y)) xs × Distinct xs

-- The next numbers, each behind a word.
unfoldable pub ids : List ℕ → ℕ → ℕ → List (List ℕ)
ids word n zero = []
ids word n (suc k) = (word ++ print_int64 (suc n)) ∷ ids word (suc n) k

numbered-ne :
    (word : List ℕ) (m n : ℕ)
    → m < n
    → n < 2 ^ 63
    → ¬ (word ++ print_int64 m ≡ word ++ print_int64 n)
numbered-ne [] m n h k e = omega (arith, h, print-injective m n (omega (arith, h, k)) k e)
numbered-ne (c ∷ word) m n h k e = numbered-ne word m n h k (ap (drop 1) e)

ids-ne :
    (word : List ℕ) (k m n : ℕ)
    → m ≤ n
    → n + k < 2 ^ 63
    → All (λ y. ¬ (word ++ print_int64 m ≡ y)) (ids word n k)
unfolding ids
ids-ne word zero m n h b = tt
ids-ne word (suc k) m n h b = (
  numbered-ne word m (suc n) (omega (arith, h)) (omega (arith, b)),
  ids-ne word k m (suc n) (omega (arith, h)) (omega (arith, b)),
)

pub ids-Distinct : (word : List ℕ) (k n : ℕ) → n + k < 2 ^ 63 → Distinct (ids word n k)
unfolding ids
ids-Distinct word zero n b = tt
ids-Distinct word (suc k) n b = (
  ids-ne word k (suc n) (suc n) (omega arith) (omega (arith, b)),
  ids-Distinct word k (suc n) (omega (arith, b)),
)
