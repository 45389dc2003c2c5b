-- ===== src/Broker/Subject/Receivers.antt =====
-- Who receives what is published for a recipient: the client whose name NewSubscriber subscribed to.
use sprut.Broker.Subject.{subject_for_client, subject-injective}
use sprut.Router.Hex.{
  is_valid_hex_pub_key, encode_to_string, encode_to_string-injective, is_valid_length, is_valid_all,
}
use sprut.Router.Hex.Names.{IsLower, encode-IsLower, decode, decode-IsDecoded}
use mathlib.Core.Path.{ap, subst}
use native.Mathlib.Bridge.{le_prop}
use native.Mathlib.Decide.{ℕ_discrete}
use mathlib.Core.HLevel.{Σ_prop_path, Σ_prop}
use sprut.Base.{sym, ◌∙◌, [], ◌∷◌, length, ◌↔◌, true, ◌≡◌, All, ℕ, List}
use sprut.Bytes.{IsByte}
use sprut.Protocol.{public_key_size}

-- A key of 32 bytes whose peer listens on the subject of `to`.
abbrev pub Receiver : List ℕ → Type 0
Receiver to =
    (key : List ℕ) × (All IsByte key
      × (length key ≡ public_key_size)
      × (subject_for_client (encode_to_string key) ≡ subject_for_client to))

All_IsByte-prop : (key : List ℕ) → IsProp (All IsByte key)
All_IsByte-prop [] = hlevel
All_IsByte-prop (b ∷ key) = Σ_prop le_prop (λ _. All_IsByte-prop key)

-- A recipient that passes handleMessage's test has at most one receiver, and it has one exactly where
-- it is written without upper-case letters: a message for a name with an upper-case digit, although
-- accepted and published, reaches nobody.
pub receivers_lem :
    (to : List ℕ)
    → is_valid_hex_pub_key to ≡ true
    → IsProp (Receiver to) × (Receiver to ↔ All IsLower to)
receivers_lem to valid = (
  λ u v.
      Σ_prop_path (λ key. (hlevel (All_IsByte-prop key, ℕ_discrete)))
        (encode_to_string-injective u.0 v.0 u.1.0 v.1.0
          (subject-injective _ _ (u.1.2 ∙ sym v.1.2))),
  (
    λ (key, (bytes, len, same)).
        subst (λ s. All IsLower s) (subject-injective _ _ same) (encode-IsLower key bytes),
    λ lower.
        let d =
          decode-IsDecoded public_key_size to (is_valid_length to valid) (is_valid_all to valid)
            lower in
        (decode to, (d.bytes, d.len, ap subject_for_client d.named)),
  ),
)
