-- ===== src/Router/Hex/Names.antt =====
-- Which recipients that pass isValidHexPubKey are the name of a key, as hex.EncodeToString writes it
-- and as NewSubscriber subscribes to it.
use sprut.Router.Hex.{is_hex, all_hex, hex_digit, encode_to_string}
use sprut.Base.{
  refl, zero, ap, suc, length, [], ◌%◌, ◌/◌, ◌-◌, ◌+◌, ◌*◌, arith, true, ◌⊎◌, ltb, if◌then◌else◌,
  ◌∷◌, ◌≡◌, All, ◌<◌, ℕ, List,
}
use sprut.Bytes.{IsByte}

-- A character that is no upper-case letter.
abbrev pub IsLower : ℕ → Type 0
IsLower c = (c < b'A') ⊎ (b'Z' < c)

digit_value : ℕ → ℕ
digit_value c = if ltb c b'a' then c - b'0' else c - b'a' + 10

-- The bytes of a text of digits; an odd one at the end is left out.
pub decode : List ℕ → List ℕ
decode [] = []
decode (c ∷ []) = []
decode (c ∷ d ∷ s) = (digit_value c * 16 + digit_value d) ∷ decode s

hex_digit-IsLower : (n : ℕ) → n < 16 → IsLower (hex_digit n)
unfolding hex_digit
hex_digit-IsLower n h = ground arith

pub encode-IsLower : (bs : List ℕ) → All IsByte bs → All IsLower (encode_to_string bs)
unfolding encode_to_string
encode-IsLower [] h = tt
encode-IsLower (b ∷ bs) h = (
  hex_digit-IsLower (b / 16) (omega arith),
  (hex_digit-IsLower (b % 16) (omega arith), encode-IsLower bs h.1),
)

digit_value-lt : (c : ℕ) → is_hex c ≡ true → IsLower c → digit_value c < 16
unfolding is_hex digit_value
digit_value-lt c h l = ground arith

hex_digit-digit_value : (c : ℕ) → is_hex c ≡ true → IsLower c → hex_digit (digit_value c) ≡ c
unfolding is_hex digit_value hex_digit
hex_digit-digit_value c h l = ground arith

all_hex-cons :
    (c : ℕ) (s : List ℕ) → all_hex (c ∷ s) ≡ true → (is_hex c ≡ true) × (all_hex s ≡ true)
unfolding all_hex
all_hex-cons c s h = ground arith

-- Of a text of 2 n lower-case digits, the bytes are n, and their name is the text.
pub record IsDecoded (n : ℕ) (s : List ℕ) (bs : List ℕ) : Type 0 where
  pub bytes : All IsByte bs
  pub len : length bs ≡ n
  pub named : encode_to_string bs ≡ s

pub decode-IsDecoded :
    (n : ℕ) (s : List ℕ)
    → length s ≡ 2 * n
    → all_hex s ≡ true
    → All IsLower s
    → IsDecoded n s (decode s)
unfolding decode encode_to_string
decode-IsDecoded zero [] e h l = record { bytes = tt; len = refl; named = refl }
decode-IsDecoded (suc n) [] e h l = absurd (omega arith)
decode-IsDecoded n (c ∷ []) e h l = absurd (omega arith)
decode-IsDecoded zero (c ∷ d ∷ s) e h l = absurd (omega arith)
decode-IsDecoded (suc n) (c ∷ d ∷ s) e h (lc, (ld, ls)) =
    let (hc, h') = all_hex-cons c (d ∷ s) h in
    let (hd, hs) = all_hex-cons d s h' in
    let rest = decode-IsDecoded n s (omega arith) hs ls in
    let c_small = digit_value-lt c hc lc in
    let d_small = digit_value-lt d hd ld in
    let high : (digit_value c * 16 + digit_value d) / 16 ≡ digit_value c = omega arith in
    let low : (digit_value c * 16 + digit_value d) % 16 ≡ digit_value d = omega arith in
    record {
      bytes = (omega arith, rest.bytes);
      len = omega (arith, rest.len);
      named = cc (
        ap hex_digit high,
        ap hex_digit low,
        hex_digit-digit_value c hc lc,
        hex_digit-digit_value d hd ld,
        rest.named,
      );
    }
