-- ===== src/Auth.antt =====
-- internal/auth/token.go: tokens and their digests. SHA-256 and the random source are not modelled:
-- the digest is a parameter, and the random bytes are an argument, `none` where the source fails.
pub mod Tokens
pub mod Tests
use veilink.Prelude.{
  ℕ, ◌≡◌, Bool, not, ◌||◌, ◌++◌, Option, none, some, ◌==◌, length, drop, Bytes, IsBytes, codes,
  bytes_eq, has_prefix, Result, ok, err, ◌>>=◌, ◌>>◌, fail_if,
}
use veilink.Encoding.Base64
use veilink.Encoding.Hex

-- `sha256.Sum256`: 32 bytes.
pub record Digest : Type 0 where
  pub sum_256 : Bytes → Bytes
  pub length-sum_256 : (b : Bytes) → length (sum_256 b) ≡ 32
  pub sum_256-IsBytes : (b : Bytes) → IsBytes (sum_256 b)

abbrev pub prefix : Bytes
prefix = codes "vl1_"

abbrev pub hash_prefix : Bytes
hash_prefix = codes "sha256:"

pub data AuthError : Type 0 where
  no_randomness invalid_token missing_hash_prefix not_hexadecimal : AuthError

-- `strings.TrimPrefix(s, p)`, where the prefix is known to stand.
abbrev pub trim_prefix : Bytes → Bytes → Bytes
trim_prefix s p = drop (length p) s

abbrev or_err {ℓ κ} : {E : Type ℓ} {A : Type κ} → Option A → E → Result E A
or_err none e = err e
or_err (some a) e = ok a

-- The argument is what `rand.Read` gives for a buffer of 32 bytes.
pub generate : Option Bytes → Result AuthError Bytes
generate random = do raw ← or_err random no_randomness; ok (prefix ++ Base64.encode_to_string raw)

pub validate : Bytes → Result AuthError (Unit {0})
validate token = do
  fail_if (not (has_prefix token prefix)) invalid_token
  raw ← or_err (Base64.decode_string (trim_prefix token prefix)) invalid_token
  fail_if (not (length raw == 32)) invalid_token
  ok tt

unfoldable pub parse_hash : Bytes → Result AuthError Bytes
parse_hash encoded = do
  fail_if (not (has_prefix encoded hash_prefix)) missing_hash_prefix
  b ← or_err (Hex.decode_string (trim_prefix encoded hash_prefix)) not_hexadecimal
  fail_if (not (length b == 32)) not_hexadecimal
  ok b

module _ (d : Digest) where
  pub hash : Bytes → Result AuthError Bytes
  hash token = do
    checked ← validate token
    ok (hash_prefix ++ Hex.encode_to_string (d.sum_256 token))

  -- `subtle.ConstantTimeCompare(actual, expected) == 1`.
  pub match : Bytes → Bytes → Bool
  match token expected = bytes_eq (d.sum_256 token) expected
