-- ===== src/Router/Hex.antt =====
-- isValidHexPubKey of pkg/router/message.go, and hex.EncodeToString, by which a peer's key becomes
-- the text that names it.
pub mod Names
use sprut.Base.{
  refl, [], ==_iff, ◌-◌, ◌%◌, ◌||◌, arith, ◌/◌, false, ◌==◌, ◌*◌, ◌&&◌, ◌+◌, leb, ◌≡◌, not, All,
  ltb, true, ◌∷◌, length, if◌then◌else◌, ◌<◌, List, Bool, ℕ,
}
use sprut.Bytes.{IsByte}
use sprut.Protocol.{public_key_size}

unfoldable pub is_hex : ℕ → Bool
is_hex c = (leb b'0' c && leb c b'9') || (leb b'a' c && leb c b'f') || (leb b'A' c && leb c b'F')

-- The loop over the bytes of the string.
unfoldable pub all_hex : List ℕ → Bool
all_hex [] = true
all_hex (c ∷ s) = if not (is_hex c) then false else all_hex s

unfoldable pub is_valid_hex_pub_key : List ℕ → Bool
is_valid_hex_pub_key s = if not (length s == public_key_size * 2) then false else all_hex s

-- hex.EncodeToString: two digits a byte, in lower case.
unfoldable pub hex_digit : ℕ → ℕ
hex_digit n = if ltb n 10 then b'0' + n else b'a' + (n - 10)

unfoldable pub encode_to_string : List ℕ → List ℕ
encode_to_string [] = []
encode_to_string (b ∷ bs) = hex_digit (b / 16) ∷ hex_digit (b % 16) ∷ encode_to_string bs

pub length-encode_to_string : (bs : List ℕ) → length (encode_to_string bs) ≡ 2 * length bs
unfolding encode_to_string
length-encode_to_string [] = omega arith
length-encode_to_string (b ∷ bs) = omega (arith, length-encode_to_string bs)

hex_digit-is_hex : (n : ℕ) → n < 16 → is_hex (hex_digit n) ≡ true
unfolding is_hex hex_digit
hex_digit-is_hex n h = ground arith

encode-all_hex : (bs : List ℕ) → All IsByte bs → all_hex (encode_to_string bs) ≡ true
unfolding encode_to_string all_hex
encode-all_hex [] h = refl
encode-all_hex (b ∷ bs) h =
    rw (hex_digit-is_hex (b / 16) (omega arith))
      (rw (hex_digit-is_hex (b % 16) (omega arith)) (encode-all_hex bs h.1))

-- The name that a server gives to the key of a peer passes the test for recipients.
pub encode_to_string-is_valid :
    (key : List ℕ)
    → All IsByte key
    → length key ≡ public_key_size
    → is_valid_hex_pub_key (encode_to_string key) ≡ true
unfolding is_valid_hex_pub_key
encode_to_string-is_valid key h k =
    rw ((==_iff (length (encode_to_string key)) 64).1 (omega (arith, length-encode_to_string key)))
      (encode-all_hex key h)

hex_digit-injective : (m n : ℕ) → m < 16 → n < 16 → hex_digit m ≡ hex_digit n → m ≡ n
unfolding hex_digit
hex_digit-injective m n h k e = ground arith

-- Two keys have one name only if they are one key.
pub encode_to_string-injective :
    (xs ys : List ℕ)
    → All IsByte xs
    → All IsByte ys
    → encode_to_string xs ≡ encode_to_string ys
    → xs ≡ ys
unfolding encode_to_string
encode_to_string-injective [] [] h k e = refl
encode_to_string-injective [] (y ∷ ys) h k e = cc
encode_to_string-injective (x ∷ xs) [] h k e = cc
encode_to_string-injective (x ∷ xs) (y ∷ ys) h k e =
    let high : hex_digit (x / 16) ≡ hex_digit (y / 16) = cc in
    let low : hex_digit (x % 16) ≡ hex_digit (y % 16) = cc in
    let rest : encode_to_string xs ≡ encode_to_string ys = cc in
    let same : x ≡ y = omega (
      arith,
      hex_digit-injective (x / 16) (y / 16) (omega arith) (omega arith) high,
      hex_digit-injective (x % 16) (y % 16) (omega arith) (omega arith) low,
    ) in
    cc (same, encode_to_string-injective xs ys h.1 k.1 rest)

-- What a valid recipient is made of.
pub is_valid_length : (s : List ℕ) → is_valid_hex_pub_key s ≡ true → length s ≡ public_key_size * 2
unfolding is_valid_hex_pub_key
is_valid_length s h = ground arith

pub is_valid_all : (s : List ℕ) → is_valid_hex_pub_key s ≡ true → all_hex s ≡ true
unfolding is_valid_hex_pub_key
is_valid_all s h = ground arith
