-- ===== src/Appdir/Keeping.antt =====
-- What the calls of package os leave as it was.
use sprut.Appdir.{Disk, or_error}
use sprut.Io.Ensures.{Ensures, Ensures-and_then, Ensures-wrap, Ensures-map}
use sprut.Base.{inr, inl, ◌⊎◌, [], none, ◌∷◌, String, ◌≡◌, All, ℕ, List}
use sprut.Io.{Error, err, and_then, ok, Proc, wrap_outcome, Outcome}

module _ {S : Type 0} (disk : Disk S) where
  -- What is there stays there; `IsMade` says that a directory is.
  pub record Kept (IsMade : List ℕ → S → Type 0) (s t : S) : Type 0 where
    pub dirs : (d : List ℕ) → IsMade d s → IsMade d t
    pub files : (f : List ℕ) → disk.stat f s ≡ none → disk.stat f t ≡ none

  -- What a call that succeeds has done, `P`, and that it keeps the rest.
  abbrev pub Keeping : (List ℕ → S → Type 0) → (S → Type 0) → Outcome S (Unit {0}) → S → Type 0
  Keeping IsMade P o s = Ensures (λ _ t. Kept IsMade s t × P t) (λ _ _. Unit {0}) o

  -- What package os documents of these calls: a directory that was made is there, and making it once
  -- more does nothing; a file that was written or opened for writing is there; nothing vanishes.
  pub record IsDisk (IsMade : List ℕ → S → Type 0) : Type 0 where
    pub made : (d : List ℕ) (s : S) → Keeping IsMade (IsMade d) (disk.mkdir_all d s) s
    pub made_already : (d : List ℕ) (s : S) → IsMade d s → disk.mkdir_all d s ≡ ok tt s
    pub written :
        (f bytes : List ℕ) (s : S)
        → Keeping IsMade (λ t. disk.stat f t ≡ none) (disk.write_file f bytes s) s
    pub opened :
        (f : List ℕ) (s : S)
        → Keeping IsMade (λ t. disk.stat f t ≡ none) (disk.open_truncated f s) s
    pub encoded :
        (f kind bytes : List ℕ) (s : S)
        → Keeping IsMade (λ t. Unit {0}) (disk.pem_encode f kind bytes s) s

  module _ (IsMade : List ℕ → S → Type 0) where
    pub Kept-refl : (s : S) → Kept IsMade s s
    Kept-refl s = record { dirs = λ d h. h; files = λ f h. h }

    pub Kept-trans : (s t u : S) → Kept IsMade s t → Kept IsMade t u → Kept IsMade s u
    Kept-trans s t u h k = record {
      dirs = λ d x. k.dirs d (h.dirs d x);
      files = λ f x. k.files f (h.files f x);
    }

    pub All-Kept :
        (s t : S) (ds : List (List ℕ))
        → Kept IsMade s t
        → All (λ d. IsMade d s) ds
        → All (λ d. IsMade d t) ds
    All-Kept s t [] k h = tt
    All-Kept s t (d ∷ ds) k (h, hs) = (k.dirs d h, All-Kept s t ds k hs)

    -- Two calls, one after the other.
    pub and_keeping :
        (P Q : S → Type 0) (o : Outcome S (Unit {0})) (f : Proc S (Unit {0})) (s : S)
        → Keeping IsMade P o s
        → ((t : S) → Kept IsMade s t → P t → Keeping IsMade Q (f t) t)
        → Keeping IsMade Q (and_then o (λ _. f)) s
    and_keeping P Q o f s h k =
        Ensures-and_then (λ _ t. Kept IsMade s t × P t) (λ _ t. Kept IsMade s t × Q t)
          (λ _ _. Unit {0}) o (λ _. f) h
          (λ _ t (kept, p).
            Ensures-map (λ _ u. Kept IsMade t u × Q u) (λ _ u. Kept IsMade s u × Q u)
              (λ _ _. Unit {0}) (λ _ _. Unit {0}) (f t)
              (λ _ u (later, q). (Kept-trans s t u kept later, q)) (λ _ _ _. tt) (k t kept p))

    pub wrap_keeping :
        (P : S → Type 0) (c : String) (o : Outcome S (Unit {0})) (s : S)
        → Keeping IsMade P o s
        → Keeping IsMade P (wrap_outcome c o) s
    wrap_keeping P c o s h =
        Ensures-wrap (λ _ t. Kept IsMade s t × P t) (λ _ _. Unit {0}) (λ _ _. Unit {0}) c o
          (λ _ _ _. tt) h

    -- What is kept stands beside what the call does.
    pub carry :
        (R P : S → Type 0) (o : Outcome S (Unit {0})) (s : S)
        → ((t : S) → Kept IsMade s t → R t)
        → Keeping IsMade P o s
        → Keeping IsMade (λ t. R t × P t) o s
    carry R P (ok a t) s r (kept, p) = (kept, (r t kept, p))
    carry R P (err e t) s r h = tt

    pub keep_only :
        (R P : S → Type 0) (o : Outcome S (Unit {0})) (s : S)
        → ((t : S) → Kept IsMade s t → R t)
        → Keeping IsMade P o s
        → Keeping IsMade R o s
    keep_only R P (ok a t) s r (kept, p) = (kept, r t kept)
    keep_only R P (err e t) s r h = tt

    -- A step that does not touch the disk.
    pub pure_keeping :
        {A : Type 0} (P : S → Type 0) (c : String) (o : Error ⊎ A) (f : A → Proc S (Unit {0}))
        (s : S)
        → ((a : A) → Keeping IsMade P (f a s) s)
        → Keeping IsMade P (and_then (or_error c o s) f) s
    unfolding or_error
    pure_keeping P c (inl e) f s h = tt
    pure_keeping P c (inr a) f s h = h a
