-- ===== src/Broker/Subject.antt =====
-- subjectForClient of pkg/broker/subscriber.go, and what NATS makes of a subject.
pub mod Receivers
use sprut.Router.Hex.{is_valid_all, is_valid_hex_pub_key, all_hex, is_hex}
use sprut.Base.{
  inr, inl, arith, ◌==◌, refl, Bool-cases, [], ◌<◌, ◌++◌, true, if◌then◌else◌, append-injective,
  ◌≡◌, ◌≢◌, All, codes, ◌∷◌, List, ℕ,
}

unfoldable pub subject_for_client : List ℕ → List ℕ
subject_for_client pub_key_hex = codes "goro.msg." ++ pub_key_hex

-- NATS reads a subject as tokens between dots; in a subscription the tokens `*` and `>` are
-- wildcards, and blanks are not allowed in a subject.
unfoldable pub add_to_first : ℕ → List (List ℕ) → List (List ℕ)
add_to_first c [] = (c ∷ []) ∷ []
add_to_first c (t ∷ ts) = (c ∷ t) ∷ ts

unfoldable pub tokens : List ℕ → List (List ℕ)
unfolding add_to_first
tokens [] = [] ∷ []
tokens (c ∷ s) = if c == b'.' then [] ∷ tokens s else add_to_first c (tokens s)

-- No dot, no wildcard, no blank, tab or end of line.
abbrev pub IsPlain : ℕ → Type 0
IsPlain c = (c ≢ b'.') × (c ≢ b'*') × (c ≢ b'>') × (32 < c)

is_hex-IsPlain : (c : ℕ) → is_hex c ≡ true → IsPlain c
unfolding is_hex
is_hex-IsPlain c h = ground arith

all_hex-IsPlain : (s : List ℕ) → all_hex s ≡ true → All IsPlain s
unfolding all_hex
all_hex-IsPlain [] h = tt
all_hex-IsPlain (c ∷ s) h = elim (Bool-cases (is_hex c)) [
  | inl good ↦ (is_hex-IsPlain c good, all_hex-IsPlain s (rw good at h))
  | inr bad ↦ cc (rw bad at h)
]

tokens-plain : (s : List ℕ) → All IsPlain s → tokens s ≡ s ∷ []
unfolding tokens
tokens-plain [] h = refl
tokens-plain (c ∷ s) h = rw (tokens-plain s h.1) (ground arith)

-- The subject of a valid recipient has exactly the three tokens goro, msg and the recipient, none of
-- them a wildcard: a recipient cannot reach into another subject.
pub subject-tokens :
    (to : List ℕ)
    → is_valid_hex_pub_key to ≡ true
    → (tokens (subject_for_client to) ≡ codes "goro" ∷ codes "msg" ∷ to ∷ []) × All IsPlain to
unfolding subject_for_client tokens
subject-tokens to h =
    let plain = all_hex-IsPlain to (is_valid_all to h) in (rw (tokens-plain to plain), plain)

-- Different recipients have different subjects.
pub subject-injective : (a b : List ℕ) → subject_for_client a ≡ subject_for_client b → a ≡ b
unfolding subject_for_client
subject-injective a b e = (append-injective (codes "goro.msg.") (codes "goro.msg.") a b refl e).1
