-- ===== src/Identity/Keep.antt =====
-- The identity that LoadOrGenerate gives is the one the file keeps.
use mathlib.Core.Path.{subst}
use sprut.Identity.{
  save_new, or_generate, load_or_generate, paired, private_key_size, loaded, save_to_file,
  load_from_file, generate, KeyPair, Calls,
}
use sprut.Base.{Bool-cases, true, ◌⊎◌, inl, refl, ==_iff, inr, ◌≡◌, length, ℕ, List}
use sprut.Io.{is_not_exist, Error, wrapping, err, ok, Outcome}
use sprut.Io.Ensures.{Ensures-map, Ensures-wrap, Ensures-and_then, Ensures}

-- What is documented of the calls: a file that WriteFile has written reads back, and GenerateKey
-- gives a private key of its size with the public key that belongs to it.
pub record IsSound {S : Type 0} (calls : Calls S) : Type 0 where
  pub reads_back :
      (path bytes : List ℕ) (s s' : S)
      → calls.write_file path bytes s ≡ ok tt s'
      → calls.read_file path s' ≡ inr bytes
  pub generated :
      (public private : List ℕ)
      → calls.generate_key ≡ inr (public, private)
      → (length private ≡ private_key_size) × (calls.public_of private ≡ public)

-- A pair whose file can be read back.
pub record IsWhole {S : Type 0} (calls : Calls S) (k : KeyPair) : Type 0 where
  pub size : length k.private_key ≡ private_key_size
  pub public : calls.public_of k.private_key ≡ k.public_key

module _ {S : Type 0} (calls : Calls S) (sound : IsSound calls) (path : List ℕ) where
  -- A disk from which LoadFromFile loads the pair.
  abbrev Holds : {A : Type 0} → KeyPair → A → S → Type 0
  Holds k _ s = load_from_file calls path s ≡ inr k

  loaded_back :
      (k : KeyPair) (s : S)
      → IsWhole calls k
      → calls.read_file path s ≡ inr k.private_key
      → load_from_file calls path s ≡ inr k
  unfolding load_from_file loaded
  loaded_back k s w h =
      rw (h, (==_iff (length k.private_key) private_key_size).1 w.size, w.public) refl

  write-Holds :
      (k : KeyPair) (o : Outcome S (Unit {0}))
      → IsWhole calls k
      → ((s : S) → o ≡ ok tt s → calls.read_file path s ≡ inr k.private_key)
      → Ensures (Holds k) (λ _ _. Unit {0}) o
  write-Holds k (ok a s) w h = loaded_back k s w (h s refl)
  write-Holds k (err e s) w h = tt

  -- A pair that SaveToFile has saved is loaded again by LoadFromFile.
  pub save_to_file-Holds :
      (k : KeyPair) (s : S)
      → IsWhole calls k
      → Ensures (Holds k) (λ _ _. Unit {0}) (save_to_file calls k path s)
  unfolding save_to_file
  save_to_file-Holds k s w =
      Ensures-and_then (λ _ _. Unit {0}) (Holds k) (λ _ _. Unit {0})
        (wrapping "create key directory" (calls.mkdir_all (calls.dir path)) s) _ (trivial _)
        (λ _ s'. λ _.
          Ensures-wrap (Holds k) (λ _ _. Unit {0}) (λ _ _. Unit {0}) "write key file"
            (calls.write_file path k.private_key s') (λ _ _ _. tt)
            (write-Holds k _ w (λ s''. sound.reads_back path k.private_key s' s'')))
    where
      trivial : (o : Outcome S (Unit {0})) → Ensures (λ _ _. Unit {0}) (λ _ _. Unit {0}) o
      trivial (ok a s') = tt
      trivial (err e s') = tt

  generate-IsWhole : (k : KeyPair) → generate calls ≡ inr k → IsWhole calls k
  unfolding generate paired
  generate-IsWhole k = by_pair calls.generate_key refl
    where
      by_pair :
          (g : Error ⊎ (List ℕ × List ℕ))
          → calls.generate_key ≡ g
          → paired g ≡ inr k
          → IsWhole calls k
      by_pair (inl e) h r = cc
      by_pair (inr (public, private)) h r =
          let same : ◌≡◌ {A = KeyPair} (record { public_key = public; private_key = private }) k =
            cc in
          let (size, belongs) = sound.generated public private h in
          subst (IsWhole calls) same (record { size = size; public = belongs })

  load_or_generate-Holds :
      (k : KeyPair) (s : S) → Holds k s s → load_or_generate calls path s ≡ ok k s
  unfolding load_or_generate or_generate
  load_or_generate-Holds k s h = rw h refl

  -- A pair that the file held, with the disk as before, or a new one where there was no file; and the
  -- next LoadOrGenerate gives it again and changes nothing.
  pub record Kept (s : S) (k : KeyPair) (s' : S) : Type 0 where
    pub again : load_or_generate calls path s' ≡ ok k s'
    pub origin :
        ((load_from_file calls path s ≡ inr k) × (s' ≡ s))
        ⊎ ((absent : Error) × (load_from_file calls path s ≡ inl absent)
            × (is_not_exist absent ≡ true))

  -- Why there was no key pair: the file is there and was refused, and the disk is as before, or there
  -- was no file.
  abbrev pub Refused : S → Error → S → Type 0
  Refused s e s' =
      ((load_from_file calls path s ≡ inl e) × (s' ≡ s))
      ⊎ ((absent : Error) × (load_from_file calls path s ≡ inl absent)
          × (is_not_exist absent ≡ true))

  -- Where GenerateKey gives proper pairs and a written file reads back: the pair of LoadOrGenerate is
  -- the one that the next LoadOrGenerate gives, which changes nothing any more. It is the pair of the file
  -- where that loads, and new only where there is no file; any other error of loading is an error of
  -- LoadOrGenerate, and the file stays as it is.
  pub load_or_generate_again :
      (s : S) → Ensures (Kept s) (Refused s) (load_or_generate calls path s)
  unfolding load_or_generate or_generate save_new
  load_or_generate_again s = by_load (load_from_file calls path s) refl
    where
      by_new :
          (g : Error ⊎ KeyPair)
          → generate calls ≡ g
          → ((absent : Error) × (load_from_file calls path s ≡ inl absent)
              × (is_not_exist absent ≡ true))
          → Ensures (Kept s) (Refused s) (save_new calls path g s)
      by_new (inl e) h none_yet = inr none_yet
      by_new (inr k) h none_yet =
          Ensures-and_then (Holds k) (Kept s) (Refused s) (save_to_file calls k path s) _
            (Ensures-map (Holds k) (Holds k) (λ _ _. Unit {0}) (Refused s)
              (save_to_file calls k path s) (λ _ _ x. x) (λ e s' _. inr none_yet)
              (save_to_file-Holds k s (generate-IsWhole k h)))
            (λ _ s' held. record {
              again = load_or_generate-Holds k s' held;
              origin = inr none_yet;
            })

      by_load :
          (l : Error ⊎ KeyPair)
          → load_from_file calls path s ≡ l
          → Ensures (Kept s) (Refused s) (or_generate calls path l s)
      by_load (inr k) h = record { again = load_or_generate-Holds k s h; origin = inl (h, refl) }
      by_load (inl e) h = elim (Bool-cases (is_not_exist e)) [
        | inl absent ↦ rw absent (by_new (generate calls) refl (e, h, absent))
        | inr other ↦ rw other (inl (h, refl))
      ]
