-- ===== src/Bytes.antt =====
-- Bytes are numbers below 256; Go's strings, byte slices and byte arrays are lists of them.
-- encoding/binary's BigEndian: PutUint16, PutUint32 and PutUint64 at 2, 4 and 8 bytes.
pub mod Slices
use sprut.Base.{
  ℕ, zero, suc, ◌+◌, ◌*◌, ◌/◌, ◌%◌, ◌^◌, ◌<◌, ◌≡◌, refl, ◌∙◌, List, [], ◌∷◌, ◌++◌, arith, length,
  length-append,
}
use native.Mathlib.Nat.{pow-suc}

abbrev pub IsByte : ℕ → Type 0
IsByte b = b < 256

-- The low `k` bytes of `v`, the highest first.
unfoldable pub put_be : ℕ → ℕ → List ℕ
put_be zero v = []
put_be (suc k) v = put_be k (v / 256) ++ (v % 256 ∷ [])

be_from : ℕ → List ℕ → ℕ
be_from acc [] = acc
be_from acc (b ∷ bs) = be_from (acc * 256 + b) bs

unfoldable pub be : List ℕ → ℕ
unfolding be_from
be bs = be_from 0 bs

pub length-put_be : (k v : ℕ) → length (put_be k v) ≡ k
unfolding put_be
length-put_be zero v = refl
length-put_be (suc k) v =
    omega (arith, length-append (put_be k (v / 256)) (v % 256 ∷ []), length-put_be k (v / 256))

be_from-append : (acc b : ℕ) (bs : List ℕ) → be_from acc (bs ++ (b ∷ [])) ≡ be_from acc bs * 256 + b
unfolding be_from
be_from-append acc b [] = refl
be_from-append acc b (x ∷ bs) = be_from-append (acc * 256 + x) b bs

-- What fits the width is read back.
pub be-put_be : (k v : ℕ) → v < 256 ^ k → be (put_be k v) ≡ v
unfolding be put_be be_from
be-put_be zero v h = omega arith
be-put_be (suc k) v h =
    be_from-append 0 (v % 256) (put_be k (v / 256))
    ∙ omega (arith, be-put_be k (v / 256) (omega (arith, pow-suc 256 k)))
