-- ===== src/Encoding/Base64.antt =====
-- `base64.RawURLEncoding`: the URL alphabet, no padding, and not strict: the decoder skips line ends
-- and does not look at the bits left over in the last character.
use veilink.Prelude.{
  suc, zero, length, ℕ, ◌+◌, ◌-◌, ◌*◌, ◌/◌, ◌%◌, ◌<◌, ◌≡◌, refl, ap, Bool, false, ◌&&◌, ◌||◌, List,
  [], ◌∷◌, ◌++◌, Option, none, some, arith, leb, ltb, ◌==◌, if◌then◌else◌, Bytes, IsBytes,
}

abbrev char_of : ℕ → ℕ
char_of n =
    if ltb n 26
    then b'A' + n
    else if ltb n 52
    then b'a' + (n - 26)
    else if ltb n 62
    then b'0' + (n - 52)
    else if n == 62
    then b'-'
    else b'_'

abbrev value_of : ℕ → Option ℕ
value_of c =
    if leb b'A' c && leb c b'Z'
    then some (c - b'A')
    else if leb b'a' c && leb c b'z'
    then some (c - b'a' + 26)
    else if leb b'0' c && leb c b'9'
    then some (c - b'0' + 52)
    else if c == b'-'
    then some 62
    else if c == b'_'
    then some 63
    else none

pub encode_to_string : Bytes → Bytes
encode_to_string [] = []
encode_to_string (a ∷ []) = char_of (a / 4) ∷ char_of (a % 4 * 16) ∷ []
encode_to_string (a ∷ b ∷ []) =
    char_of (a / 4) ∷ char_of (a % 4 * 16 + b / 16) ∷ char_of (b % 16 * 4) ∷ []
encode_to_string (a ∷ b ∷ c ∷ rest) =
    char_of (a / 4)
    ∷ char_of (a % 4 * 16 + b / 16)
    ∷ char_of (b % 16 * 4 + c / 64)
    ∷ char_of (c % 64)
    ∷ encode_to_string rest

-- Three bytes are four characters.
pub length-encode_to_string :
    (k : ℕ) (s : Bytes) → length s ≡ k * 3 → length (encode_to_string s) ≡ k * 4
unfolding encode_to_string
length-encode_to_string zero [] h = refl
length-encode_to_string zero (a ∷ s) h = absurd (omega (arith, h))
length-encode_to_string (suc k) [] h = absurd (omega (arith, h))
length-encode_to_string (suc k) (a ∷ []) h = absurd (omega (arith, h))
length-encode_to_string (suc k) (a ∷ b ∷ []) h = absurd (omega (arith, h))
length-encode_to_string (suc k) (a ∷ b ∷ c ∷ s) h =
    omega (arith, length-encode_to_string k s (omega (arith, h)))

abbrev pub is_line_end : ℕ → Bool
is_line_end c = c == 10 || c == 13

abbrev cons : Option ℕ → Option (List ℕ) → Option (List ℕ)
cons none r = none
cons (some v) none = none
cons (some v) (some vs) = some (v ∷ vs)

abbrev prepend : ℕ → ℕ → ℕ → Option Bytes → Option Bytes
prepend a b c none = none
prepend a b c (some r) = some (a ∷ b ∷ c ∷ r)

-- The values of the characters, or `none` at one outside the alphabet.
values : Bytes → Option (List ℕ)
values [] = some []
values (c ∷ s) = let rest = values s in if is_line_end c then rest else cons (value_of c) rest

quanta : List ℕ → Option Bytes
quanta [] = some []
quanta (x ∷ []) = none
quanta (x ∷ y ∷ []) = some ((x * 4 + y / 16) ∷ [])
quanta (x ∷ y ∷ z ∷ []) = some ((x * 4 + y / 16) ∷ (y % 16 * 16 + z / 4) ∷ [])
quanta (x ∷ y ∷ z ∷ w ∷ rest) =
    prepend (x * 4 + y / 16) (y % 16 * 16 + z / 4) (z % 4 * 64 + w) (quanta rest)

pub decode_values : Option (List ℕ) → Option Bytes
decode_values none = none
decode_values (some vs) = quanta vs

pub decode_string : Bytes → Option Bytes
decode_string s = decode_values (values s)

value_of-char_of : (n : ℕ) → n < 64 → value_of (char_of n) ≡ some n
value_of-char_of n h = ground arith

char_of-not_line_end : (n : ℕ) → is_line_end (char_of n) ≡ false
char_of-not_line_end n = ground arith

values-char_of : (n : ℕ) (s : Bytes) → n < 64 → values (char_of n ∷ s) ≡ cons (some n) (values s)
unfolding values
values-char_of n s h = rw (char_of-not_line_end n, value_of-char_of n h)

-- The values that an encoding has.
abbrev sextets : Bytes → List ℕ
sextets [] = []
sextets (a ∷ []) = (a / 4) ∷ (a % 4 * 16) ∷ []
sextets (a ∷ b ∷ []) = (a / 4) ∷ (a % 4 * 16 + b / 16) ∷ (b % 16 * 4) ∷ []
sextets (a ∷ b ∷ c ∷ rest) =
    (a / 4) ∷ (a % 4 * 16 + b / 16) ∷ (b % 16 * 4 + c / 64) ∷ (c % 64) ∷ sextets rest

values-encode_to_string : (b : Bytes) → IsBytes b → values (encode_to_string b) ≡ some (sextets b)
unfolding encode_to_string
values-encode_to_string [] h = unfold values in refl
values-encode_to_string (a ∷ []) h =
    rw
      (
        values-char_of (a / 4) (char_of (a % 4 * 16) ∷ []) (omega arith),
        values-char_of (a % 4 * 16) [] (omega arith),
      )
      (unfold values in refl)
values-encode_to_string (a ∷ b ∷ []) h =
    rw
      (
        values-char_of (a / 4) (char_of (a % 4 * 16 + b / 16) ∷ char_of (b % 16 * 4) ∷ [])
            (omega arith),
        values-char_of (a % 4 * 16 + b / 16) (char_of (b % 16 * 4) ∷ []) (omega arith),
        values-char_of (b % 16 * 4) [] (omega arith),
      )
      (unfold values in refl)
values-encode_to_string (a ∷ b ∷ c ∷ rest) h = rw (
  values-char_of (a / 4)
      (char_of (a % 4 * 16 + b / 16)
        ∷ char_of (b % 16 * 4 + c / 64)
        ∷ char_of (c % 64)
        ∷ encode_to_string rest)
      (omega arith),
  values-char_of (a % 4 * 16 + b / 16)
      (char_of (b % 16 * 4 + c / 64) ∷ char_of (c % 64) ∷ encode_to_string rest) (omega arith),
  values-char_of (b % 16 * 4 + c / 64) (char_of (c % 64) ∷ encode_to_string rest) (omega arith),
  values-char_of (c % 64) (encode_to_string rest) (omega arith),
  values-encode_to_string rest h.1.1.1,
)

quanta-sextets : (b : Bytes) → IsBytes b → quanta (sextets b) ≡ some b
unfolding quanta
quanta-sextets [] h = refl
quanta-sextets (a ∷ []) h = ap some (ground arith)
quanta-sextets (a ∷ b ∷ []) h = ap some (ground arith)
quanta-sextets (a ∷ b ∷ c ∷ rest) h = rw (quanta-sextets rest h.1.1.1) (ap some (ground arith))

pub decode-encode_to_string : (b : Bytes) → IsBytes b → decode_string (encode_to_string b) ≡ some b
unfolding decode_string decode_values
decode-encode_to_string b h = rw (values-encode_to_string b h) (quanta-sextets b h)

values_line_end : (s : Bytes) → values (s ++ 10 ∷ []) ≡ values s
unfolding values
values_line_end [] = refl
values_line_end (c ∷ s) = rw (values_line_end s)

-- A line end after a text is skipped.
pub decode_string_line_end : (s : Bytes) → decode_string (s ++ 10 ∷ []) ≡ decode_string s
unfolding decode_string
decode_string_line_end s = rw (values_line_end s)
