-- ===== src/Base/Text.antt =====
-- The bytes of a text literal (ASCII).
use mathlib.Core.Path.{◌≡◌, refl}
use mathlib.Core.Bool.{Bool, true, false, ◌&&◌}
use native.Mathlib.Omega.{arith}
use sprut.Base.Tests.{◌==◌, ==_refl, ==_iff}
use Prim.Native.Nat.{ℕ}
use Prim.Native.Char.{code}
use Prim.Native.String.{String}
use mathlib.Core.List.{List, [], ◌∷◌}

abbrev pub codes : String → List ℕ
codes String.[] = []
codes (String.◌∷◌ c s) = code c ∷ codes s

-- Equality of Go strings.
unfoldable pub same_text : List ℕ → List ℕ → Bool
same_text [] [] = true
same_text [] (d ∷ ds) = false
same_text (c ∷ cs) [] = false
same_text (c ∷ cs) (d ∷ ds) = c == d && same_text cs ds

pub same_text_refl : (s : List ℕ) → same_text s s ≡ true
unfolding same_text
same_text_refl [] = refl
same_text_refl (c ∷ s) = rw (==_refl c) (same_text_refl s)

pub eq_of_same_text : (s t : List ℕ) → same_text s t ≡ true → s ≡ t
unfolding same_text
eq_of_same_text [] [] h = refl
eq_of_same_text [] (d ∷ ds) h = cc
eq_of_same_text (c ∷ cs) [] h = cc
eq_of_same_text (c ∷ cs) (d ∷ ds) h = ground (arith, ==_iff c d, eq_of_same_text cs ds)
