-- ===== src/Protocol/Frame.antt =====
-- internal/protocol/frame.go: the v1 frame, `Encode` and `Decode`.
pub mod Codec
pub mod Roundtrip
pub mod Equivalence
mod Tests
use veilink.Prelude.{
  ℕ, ◌+◌, ◌-◌, ◌*◌, ◌/◌, ◌%◌, Bool, ◌&&◌, ◌||◌, not, List, [], ◌∷◌, leb, ltb, ◌==◌, length, drop,
  replicate, get_elem?, overlay, copy_at, Bytes, Result, ok, err, ◌>>=◌, ◌>>◌, fail_if, or_panic,
}

abbrev pub version : ℕ
version = 1

abbrev pub header_size : ℕ
header_size = 8

abbrev pub max_packet_size : ℕ
max_packet_size = 65535

abbrev pub magic_0 : ℕ
magic_0 = b'V'

abbrev pub magic_1 : ℕ
magic_1 = b'L'

abbrev pub type_hello : ℕ
type_hello = 1

abbrev pub type_welcome : ℕ
type_welcome = 2

abbrev pub type_packet : ℕ
type_packet = 3

abbrev pub type_error : ℕ
type_error = 4

pub data FrameError : Type 0 where
  short_frame invalid_magic length_mismatch payload_too_large invalid_type : FrameError
  unsupported_version : ℕ → FrameError  -- the version that was read

pub record Frame : Type 0 where
  pub typ : ℕ  -- uint8
  pub flags : ℕ  -- uint16
  pub payload : Bytes

abbrev pub valid_type : ℕ → Bool
valid_type typ = leb type_hello typ && leb typ type_error

-- `binary.BigEndian.PutUint16(b[i:i+2], v)`.
abbrev pub put_uint16 : ℕ → Bytes → ℕ → Bytes
put_uint16 i b v = copy_at i b ((v / 256 % 256) ∷ (v % 256) ∷ [])

unfoldable pub encode : ℕ → ℕ → Bytes → Result FrameError Bytes
encode typ flags payload = do
  fail_if (not (valid_type typ)) invalid_type
  fail_if (ltb max_packet_size (length payload)) payload_too_large
  let b0 = replicate (header_size + length payload) 0
  let b1 = copy_at 0 b0 (magic_0 ∷ magic_1 ∷ [])
  let b2 = copy_at 2 b1 (version ∷ [])
  let b3 = copy_at 3 b2 (typ ∷ [])
  let b4 = put_uint16 4 b3 flags
  let b5 = put_uint16 6 b4 (length payload % 65536)
  ok (copy_at header_size b5 payload)

-- `b[i]`, which panics out of range.
abbrev pub index {ℓ} : {E : Type ℓ} → Bytes → ℕ → Result E ℕ
index b i = or_panic (get_elem? b i)

-- `binary.BigEndian.Uint16(b[i:i+2])`; the two shifted bytes share no bit.
abbrev pub uint16 {ℓ} : {E : Type ℓ} → Bytes → ℕ → ℕ → Result E ℕ
uint16 b i j = do hi ← index b i; lo ← index b j; ok (hi * 256 + lo)

-- The subtraction of `len(b) - HeaderSize` is exact there: the first test has passed.
pub decode : Bytes → Result FrameError Frame
decode b = do
  fail_if (ltb (length b) header_size) short_frame
  m0 ← index b 0
  m1 ← index b 1
  fail_if (not (m0 == magic_0) || not (m1 == magic_1)) invalid_magic
  v ← index b 2
  fail_if (not (v == version)) (unsupported_version v)
  typ ← index b 3
  fail_if (not (valid_type typ)) invalid_type
  n ← uint16 b 6 7
  fail_if (not (n == length b - header_size)) length_mismatch
  flags ← uint16 b 4 5
  ok (record { typ = typ; flags = flags; payload = overlay (replicate n 0) (drop header_size b) })
