-- ===== src/Bytes/Slices.antt =====
-- Go's slices of a byte buffer: buf[lo:hi], and copy into a buffer at an offset.
use sprut.Base.{
  append_assoc, sym, refl, zero, suc, [], take-append_seam, length-drop, take-append_left,
  length-take, length-append, ◌∷◌, drop-append_seam, take_all, arith, ap, suc, drop-append_left,
  ◌∙◌, ◌++◌, ◌-◌, ◌≡◌, ◌≤◌, ◌+◌, min, length, take, drop, ℕ, List,
}

abbrev pub slice : ℕ → ℕ → List ℕ → List ℕ
slice lo hi buf = take (hi - lo) (drop lo buf)

-- `copy(buf[off:], src)`: it copies what fits.
unfoldable pub copy_at : ℕ → List ℕ → List ℕ → List ℕ
copy_at off src buf = take off buf ++ (take (length buf - off) src ++ drop (off + length src) buf)

-- What `copy` returns.
unfoldable pub copied : ℕ → List ℕ → List ℕ → ℕ
copied off src buf = min (length src) (length buf - off)

first : List ℕ → ℕ
first [] = 0
first (b ∷ bs) = b

-- `buf[off]`
unfoldable pub byte_at : ℕ → List ℕ → ℕ
unfolding first
byte_at off buf = first (slice off (off + 1) buf)

take-nil : (k : ℕ) → take {A = ℕ} k [] ≡ []
take-nil zero = refl
take-nil (suc k) = refl

drop-nil : (k : ℕ) → drop {A = ℕ} k [] ≡ []
drop-nil zero = refl
drop-nil (suc k) = refl

-- A cut at an equal number.
take_at : {m n : ℕ} (xs : List ℕ) → m ≡ n → take m xs ≡ take n xs
take_at xs e = ap (λ k. take k xs) e

drop_at : {m n : ℕ} (xs : List ℕ) → m ≡ n → drop m xs ≡ drop n xs
drop_at xs e = ap (λ k. drop k xs) e

take-take : (m n : ℕ) (xs : List ℕ) → take m (take n xs) ≡ take (min m n) xs
take-take zero n xs = take_at {m = 0} {n = min 0 n} xs (omega arith)
take-take (suc m) zero xs = take_at {m = 0} {n = min (suc m) 0} xs (omega arith)
take-take (suc m) (suc n) [] = sym (take-nil _)
take-take (suc m) (suc n) (x ∷ xs) =
    ap (◌∷◌ x) (take-take m n xs)
    ∙ take_at {m = suc (min m n)} {n = min (suc m) (suc n)} (x ∷ xs) (omega arith)

pub drop-drop : (m n : ℕ) (xs : List ℕ) → drop m (drop n xs) ≡ drop (n + m) xs
drop-drop m zero xs = drop_at {m = m} {n = 0 + m} xs (omega arith)
drop-drop m (suc n) [] = drop-nil m ∙ sym (drop-nil _)
drop-drop m (suc n) (x ∷ xs) =
    drop-drop m n xs ∙ drop_at {m = suc (n + m)} {n = suc n + m} (x ∷ xs) (omega arith)

-- With room for all of `src`, `copy` replaces a middle part.
pub copy_at-fits :
    (off : ℕ) (src buf : List ℕ)
    → off + length src ≤ length buf
    → copy_at off src buf ≡ take off buf ++ (src ++ drop (off + length src) buf)
unfolding copy_at
copy_at-fits off src buf h = rw (take_all (length buf - off) src (omega arith))

-- `copy` never changes a buffer's length.
pub length-copy_at :
    (off : ℕ) (src buf : List ℕ) → off ≤ length buf → length (copy_at off src buf) ≡ length buf
unfolding copy_at
length-copy_at off src buf h = omega (
  arith,
  length-append (take off buf) (take (length buf - off) src ++ drop (off + length src) buf),
  length-append (take (length buf - off) src) (drop (off + length src) buf),
  length-take off buf,
  length-take (length buf - off) src,
  length-drop (off + length src) buf,
)

-- The part that was written.
pub slice-copy_at :
    (off hi : ℕ) (src buf : List ℕ)
    → off + length src ≡ hi
    → hi ≤ length buf
    → slice off hi (copy_at off src buf) ≡ src
slice-copy_at off hi src buf e h = rw (copy_at-fits off src buf (omega arith)) (
    rw
      (drop-append_seam off (take off buf) (src ++ drop (off + length src) buf)
        (omega (arith, length-take off buf)))
      (take-append_seam (hi - off) src (drop (off + length src) buf) (omega arith)))

drop-take : (lo off : ℕ) (xs : List ℕ) → drop lo (take off xs) ≡ take (off - lo) (drop lo xs)
drop-take zero off xs = take_at {m = off} {n = off - 0} xs (omega arith)
drop-take (suc lo) zero xs = take_at {m = 0} {n = 0 - suc lo} (drop (suc lo) xs) (omega arith)
drop-take (suc lo) (suc off) [] = sym (take_all (suc off - suc lo) [] (omega arith))
drop-take (suc lo) (suc off) (x ∷ xs) =
    drop-take lo off xs ∙ ap (λ k. take k (drop lo xs)) (omega arith)

pub take_of_take : (j k : ℕ) (xs : List ℕ) → j ≤ k → take j (take k xs) ≡ take j xs
take_of_take j k xs h = take-take j k xs ∙ take_at {m = min j k} {n = j} xs (omega arith)

pub slice-take :
    (lo hi off : ℕ) (xs : List ℕ) → hi ≤ off → slice lo hi (take off xs) ≡ slice lo hi xs
slice-take lo hi off xs h =
    rw (drop-take lo off xs)
      (take-take (hi - lo) (off - lo) (drop lo xs) ∙ ap (λ k. take k (drop lo xs)) (omega arith))

drop-append_right :
    (n : ℕ) (xs ys : List ℕ) → length xs ≤ n → drop n (xs ++ ys) ≡ drop (n - length xs) ys
drop-append_right n [] ys h = ap (λ k. drop k ys) (omega arith)
drop-append_right zero (x ∷ xs) ys h = absurd (omega arith)
drop-append_right (suc n) (x ∷ xs) ys h =
    drop-append_right n xs ys (omega arith) ∙ ap (λ k. drop k ys) (omega arith)

-- A part that lies in front of it, and one behind it.
pub slice-copy_at_before :
    (lo hi off : ℕ) (src buf : List ℕ)
    → lo ≤ hi
    → hi ≤ off
    → off + length src ≤ length buf
    → slice lo hi (copy_at off src buf) ≡ slice lo hi buf
slice-copy_at_before lo hi off src buf l h fits = rw (copy_at-fits off src buf fits) (
    rw
      (drop-append_left lo (take off buf) (src ++ drop (off + length src) buf)
        (omega (arith, length-take off buf)))
      (rw
        (take-append_left (hi - lo) (drop lo (take off buf)) (src ++ drop (off + length src) buf)
          (omega (arith, length-drop lo (take off buf), length-take off buf)))
        (slice-take lo hi off buf h)))

pub slice-copy_at_after :
    (lo hi off : ℕ) (src buf : List ℕ)
    → off + length src ≤ lo
    → off + length src ≤ length buf
    → slice lo hi (copy_at off src buf) ≡ slice lo hi buf
slice-copy_at_after lo hi off src buf h fits = rw (copy_at-fits off src buf fits) (
    ap (take (hi - lo)) (
      drop-append_right lo (take off buf) (src ++ drop (off + length src) buf)
        (omega (arith, length-take off buf))
      ∙ drop-append_right (lo - length (take off buf)) src (drop (off + length src) buf)
          (omega (arith, length-take off buf))
      ∙ drop-drop (lo - length (take off buf) - length src) (off + length src) buf
      ∙ ap (λ k. drop k buf) (omega (arith, length-take off buf))))

-- The part `ys` of a buffer that is put together from three.
pub slice-parts :
    (lo hi : ℕ) (xs ys zs : List ℕ) {buf : List ℕ}
    → buf ≡ xs ++ (ys ++ zs)
    → length xs ≡ lo
    → lo + length ys ≡ hi
    → slice lo hi buf ≡ ys
slice-parts lo hi xs ys zs e h k =
    rw e (rw (drop-append_seam lo xs (ys ++ zs) h) (take-append_seam (hi - lo) ys zs (omega arith)))

-- A copy right behind a part extends it.
pub slice-extend :
    (lo mid hi : ℕ) (src buf : List ℕ)
    → lo ≤ mid
    → mid + length src ≡ hi
    → hi ≤ length buf
    → slice lo hi (copy_at mid src buf) ≡ slice lo mid buf ++ src
slice-extend lo mid hi src buf l e h = rw (copy_at-fits mid src buf (omega arith)) (
    rw
      (drop-append_left lo (take mid buf) (src ++ drop (mid + length src) buf)
        (omega (arith, length-take mid buf)))
      (rw (drop-take lo mid buf) (
        rw (← append_assoc (take (mid - lo) (drop lo buf)) src (drop (mid + length src) buf)) (
          take-append_seam (hi - lo) (take (mid - lo) (drop lo buf) ++ src)
            (drop (mid + length src) buf)
            (omega (
              arith,
              length-append (take (mid - lo) (drop lo buf)) src,
              length-take (mid - lo) (drop lo buf),
              length-drop lo buf,
            ))))))

-- One byte written and read.
pub byte_at-copy_at :
    (off b : ℕ) (buf : List ℕ) → off + 1 ≤ length buf → byte_at off (copy_at off (b ∷ []) buf) ≡ b
unfolding byte_at
byte_at-copy_at off b buf h = rw (slice-copy_at off (off + 1) (b ∷ []) buf refl h)

pub take-copy_at_before :
    (k off : ℕ) (src buf : List ℕ)
    → k ≤ off
    → off + length src ≤ length buf
    → take k (copy_at off src buf) ≡ take k buf
take-copy_at_before k off src buf h l = rw (copy_at-fits off src buf l) (
    take-append_left k (take off buf) (src ++ drop (off + length src) buf)
      (omega (arith, length-take off buf))
    ∙ take_of_take k off buf h)
