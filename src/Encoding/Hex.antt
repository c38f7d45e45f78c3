-- ===== src/Encoding/Hex.antt =====
-- `hex.EncodeToString` and `hex.DecodeString`: two digits to a byte, either case on the way in.
use veilink.Prelude.{
  ℕ, ◌+◌, ◌-◌, ◌*◌, ◌/◌, ◌%◌, ◌<◌, ◌≡◌, refl, ap, ◌&&◌, [], ◌∷◌, Option, none, some, arith, leb,
  ltb, if◌then◌else◌, Bytes, IsBytes,
}

abbrev digit : ℕ → ℕ
digit n = if ltb n 10 then b'0' + n else b'a' + (n - 10)

abbrev from_hex_char : ℕ → Option ℕ
from_hex_char c =
    if leb b'0' c && leb c b'9'
    then some (c - b'0')
    else if leb b'a' c && leb c b'f'
    then some (c - b'a' + 10)
    else if leb b'A' c && leb c b'F'
    then some (c - b'A' + 10)
    else none

unfoldable pub encode_to_string : Bytes → Bytes
encode_to_string [] = []
encode_to_string (b ∷ bs) = digit (b / 16) ∷ digit (b % 16) ∷ encode_to_string bs

abbrev join : Option ℕ → Option ℕ → Option Bytes → Option Bytes
join (some hi) (some lo) (some bs) = some ((hi * 16 + lo) ∷ bs)
join _ _ _ = none

unfoldable pub decode_string : Bytes → Option Bytes
decode_string [] = some []
decode_string (c ∷ []) = none
decode_string (c ∷ d ∷ s) = join (from_hex_char c) (from_hex_char d) (decode_string s)

from_hex_char-digit : (n : ℕ) → n < 16 → from_hex_char (digit n) ≡ some n
from_hex_char-digit n h = ground arith

pub decode-encode_to_string : (b : Bytes) → IsBytes b → decode_string (encode_to_string b) ≡ some b
unfolding decode_string encode_to_string
decode-encode_to_string [] h = refl
decode-encode_to_string (b ∷ bs) h =
    rw
      (
        from_hex_char-digit (b / 16) (omega arith),
        from_hex_char-digit (b % 16) (omega arith),
        decode-encode_to_string bs h.1,
      )
      (ap some (ground arith))
