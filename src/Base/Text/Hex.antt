-- ===== src/Base/Text/Hex.antt =====
-- Hexadecimal digits: `hex.EncodeToString` and `hex.DecodeString`.
use arcticworks_codepeer.Base.{
  ℕ, ◌+◌, ◌-◌, ◌*◌, ◌/◌, ◌%◌, ◌<◌, ◌≡◌, refl, ◌&&◌, Option, none, some, [], ◌∷◌, ltb, leb,
  if◌then◌else◌, arith, All,
}
use arcticworks_codepeer.Base.Text.{Text}

-- The value of a hexadecimal digit of either case.
unfoldable pub from_hex : ℕ → Option ℕ
from_hex c =
    if leb b'0' c && leb c b'9'
    then some (c - b'0')
    else if leb b'a' c && leb c b'f'
    then some (c - b'a' + 10)
    else if leb b'A' c && leb c b'F'
    then some (c - b'A' + 10)
    else none

byte_of : Option ℕ → Option ℕ → Option ℕ
byte_of (some h) (some l) = some (h * 16 + l)
byte_of _ _ = none

push_byte : Option ℕ → Option Text → Option Text
push_byte (some b) (some bs) = some (b ∷ bs)
push_byte _ _ = none

-- An odd length or another digit is an error.
unfoldable pub decode_hex : Text → Option Text
unfolding byte_of push_byte
decode_hex [] = some []
decode_hex (c ∷ []) = none
decode_hex (c ∷ d ∷ s) = push_byte (byte_of (from_hex c) (from_hex d)) (decode_hex s)

-- The digit of a value below 16.
abbrev pub hex_digit : ℕ → ℕ
hex_digit n = if ltb n 10 then b'0' + n else b'a' + (n - 10)

abbrev pub encode_hex : Text → Text
encode_hex [] = []
encode_hex (b ∷ bs) = hex_digit (b / 16) ∷ hex_digit (b % 16) ∷ encode_hex bs

from_hex-hex_digit : (n : ℕ) → n < 16 → from_hex (hex_digit n) ≡ some n
unfolding from_hex
from_hex-hex_digit n h = ground arith

pub decode_hex-encode_hex :
    (bs : Text) → All (λ b. b < 256) bs → decode_hex (encode_hex bs) ≡ some bs
unfolding decode_hex
decode_hex-encode_hex [] h = refl
decode_hex-encode_hex (b ∷ bs) h =
    rw
      (
        from_hex-hex_digit (b / 16) (omega (arith, h.0)),
        from_hex-hex_digit (b % 16) (omega arith),
        decode_hex-encode_hex bs h.1,
      )
      (ground arith)
