-- ===== src/Programs/SimpleClient/Trim.antt =====
-- strings.TrimSpace and strings.SplitN of examples/simple-client/main.go on lines of ASCII.
use mathlib.Core.List.{reverse, reverse-append, reverse-reverse, reverse-cons}
use sprut.Programs.SimpleClient.{
  is_space1, is_space2, is_space3, first_space, last_space, strip, trim_space, split_space,
}
use sprut.Base.{All-append, refl, arith, ◌≡◌, All, ◌<◌, ℕ, [], ◌∷◌, ◌++◌, List, some, true}

-- Visible ASCII.
abbrev pub IsVisible : ℕ → Type 0
IsVisible c = (32 < c) × (c < 127)

abbrev pub IsBlank : ℕ → Type 0
IsBlank c = is_space1 c ≡ true

abbrev pub Begins : (ℕ → Type 0) → List ℕ → Type 0
Begins P [] = ⊥
Begins P (c ∷ s) = P c

pub Begins-append : (P : ℕ → Type 0) (s t : List ℕ) → Begins P s → Begins P (s ++ t)
Begins-append P (c ∷ s) t h = h
Begins-append P [] t h = absurd h

first_space-visible : (c : ℕ) (s : List ℕ) → IsVisible c → first_space (c ∷ s) ≡ 0
unfolding first_space is_space1 is_space2 is_space3
first_space-visible c [] h = ground arith
first_space-visible c (d ∷ []) h = ground arith
first_space-visible c (d ∷ e ∷ s) h = ground arith

last_space-visible : (c : ℕ) (s : List ℕ) → IsVisible c → last_space (c ∷ s) ≡ 0
unfolding last_space is_space1 is_space2 is_space3
last_space-visible c [] h = ground arith
last_space-visible c (d ∷ []) h = ground arith
last_space-visible c (d ∷ e ∷ s) h = ground arith

first_space-blank : (c : ℕ) (s : List ℕ) → IsBlank c → first_space (c ∷ s) ≡ 1
unfolding first_space
first_space-blank c [] h = rw h refl
first_space-blank c (d ∷ []) h = rw h refl
first_space-blank c (d ∷ e ∷ s) h = rw h refl

last_space-blank : (c : ℕ) (s : List ℕ) → IsBlank c → last_space (c ∷ s) ≡ 1
unfolding last_space
last_space-blank c [] h = rw h refl
last_space-blank c (d ∷ []) h = rw h refl
last_space-blank c (d ∷ e ∷ s) h = rw h refl

module _ (width : List ℕ → ℕ) (visible : (c : ℕ) (s : List ℕ) → IsVisible c → width (c ∷ s) ≡ 0)
    (blank : (c : ℕ) (s : List ℕ) → IsBlank c → width (c ∷ s) ≡ 1) where
  strip-blank :
      (before s : List ℕ)
      → All IsBlank before
      → Begins IsVisible s
      → strip width 0 (before ++ s) ≡ s
  unfolding strip
  strip-blank [] [] h b = absurd b
  strip-blank [] (c ∷ s) h b = rw (visible c s b) refl
  strip-blank (a ∷ before) s (h, hs) b = rw (blank a (before ++ s) h) (strip-blank before s hs b)

All-reverse : (P : ℕ → Type 0) (s : List ℕ) → All P s → All P (reverse s)
All-reverse P [] h = tt
All-reverse P (c ∷ s) (h, hs) =
    rw (reverse-cons c s) (All-append P (reverse s) (c ∷ []) (All-reverse P s hs) (h, tt))

pub trim_space-blank :
    (before s after : List ℕ)
    → All IsBlank before
    → All IsBlank after
    → Begins IsVisible s
    → Begins IsVisible (reverse s)
    → trim_space (before ++ (s ++ after)) ≡ s
unfolding trim_space
trim_space-blank before s after hb ha first last =
    rw
      (
        strip-blank first_space first_space-visible first_space-blank before (s ++ after) hb
            (Begins-append IsVisible s after first),
        reverse-append s after,
        strip-blank last_space last_space-visible last_space-blank (reverse after) (reverse s)
            (All-reverse IsBlank after ha) last,
      )
      (reverse-reverse s)

pub split_space-first : (s t : List ℕ) → All IsVisible s → split_space (s ++ (32 ∷ t)) ≡ (s, some t)
unfolding split_space
split_space-first [] t h = refl
split_space-first (c ∷ s) t (h, hs) = rw (split_space-first s t hs) (ground arith)
