-- ===== src/Identity.antt =====
-- pkg/identity/keypair.go. Its calls of os, path/filepath and crypto/ed25519 are parameters.
pub mod Keep
use sprut.Base.{[], ◌∷◌, ◌==◌, length, if◌then◌else◌, inr, inl, ◌⊎◌, ℕ, List}
use sprut.Io.{message, is_not_exist, return, wrap, fail, wrapping, ◌>>◌, Proc, Error}

pub record KeyPair : Type 0 where
  pub public_key : List ℕ
  pub private_key : List ℕ

-- What the package calls: the files of a disk `S`, filepath.Dir, ed25519.GenerateKey and the public
-- key of a private one.
pub record Calls (S : Type 0) : Type 0 where
  pub read_file : List ℕ → S → Error ⊎ List ℕ
  pub mkdir_all : List ℕ → Proc S (Unit {0})
  pub write_file : List ℕ → List ℕ → Proc S (Unit {0})
  pub dir : List ℕ → List ℕ
  pub generate_key : Error ⊎ (List ℕ × List ℕ)
  pub public_of : List ℕ → List ℕ

abbrev pub private_key_size : ℕ
private_key_size = 64

paired : Error ⊎ (List ℕ × List ℕ) → Error ⊎ KeyPair
paired (inl e) = inl (wrap "generate ed25519 key" e)
paired (inr (public, private)) = inr (record { public_key = public; private_key = private })

module _ {S : Type 0} (calls : Calls S) where
  -- Generate.
  unfoldable pub generate : Error ⊎ KeyPair
  unfolding paired
  generate = paired calls.generate_key

  loaded : Error ⊎ List ℕ → Error ⊎ KeyPair
  loaded (inl e) = inl (wrap "read key file" e)
  loaded (inr data_read) =
      if length data_read == private_key_size
      then inr (record { public_key = calls.public_of data_read; private_key = data_read })
      else inl (
          message "invalid key file size: expected %d, got %d"
            (private_key_size ∷ length data_read ∷ []))

  -- LoadFromFile.
  unfoldable pub load_from_file : List ℕ → S → Error ⊎ KeyPair
  unfolding loaded
  load_from_file path s = loaded (calls.read_file path s)

  -- SaveToFile.
  unfoldable pub save_to_file : KeyPair → List ℕ → Proc S (Unit {0})
  save_to_file k path = do
    wrapping "create key directory" (calls.mkdir_all (calls.dir path))
    wrapping "write key file" (calls.write_file path k.private_key)

  save_new : List ℕ → Error ⊎ KeyPair → Proc S KeyPair
  save_new path (inl e) = fail e
  save_new path (inr k) = do save_to_file k path; return k

  or_generate : List ℕ → Error ⊎ KeyPair → Proc S KeyPair
  or_generate path (inr k) = return k
  or_generate path (inl e) = if is_not_exist e then save_new path generate else fail e

  -- LoadOrGenerate.
  unfoldable pub load_or_generate : List ℕ → Proc S KeyPair
  unfolding save_new or_generate
  load_or_generate path s = or_generate path (load_from_file path s) s
