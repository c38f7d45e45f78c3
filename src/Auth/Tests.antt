-- ===== src/Auth/Tests.antt =====
-- internal/auth/token.go: the token of 32 zero bytes, with a digest that stands for SHA-256.
use veilink.Prelude.{
  ◌++◌, ◌%◌, some, length, IsBytes, replicate, Bytes, refl, ok, ◌≡◌, arith, ℕ, true,
}
use veilink.Encoding.Base64
use veilink.Encoding.Hex
use veilink.Auth.{Digest, generate, validate, hash, parse_hash, match, prefix, hash_prefix}
use veilink.Auth.Tokens.{token_pair, validate_generated}

-- Not SHA-256: the length of the text, 32 times.
abbrev constant : ℕ → Bytes
constant n = replicate 32 (n % 256)

constant-IsBytes : (n : ℕ) → IsBytes (constant n)
constant-IsBytes n = omega arith

abbrev digest : Digest
digest = record {
  sum_256 = λ b. constant (length b);
  length-sum_256 = λ b. refl;
  sum_256-IsBytes = λ b. constant-IsBytes (length b);
}

abbrev pub zeros : Bytes
zeros = replicate 32 0

abbrev pub token : Bytes
token = prefix ++ Base64.encode_to_string zeros

pub generated : generate (some zeros) ≡ ok token
unfolding generate
generated = refl

pub token_valid : validate token ≡ ok tt
token_valid = validate_generated zeros token (omega arith) refl generated

token_pair_example :
    (t encoded : Bytes) × (generate (some zeros) ≡ ok t)
    × (validate t ≡ ok tt)
    × (hash digest t ≡ ok encoded)
    × (parse_hash encoded ≡ ok (digest.sum_256 t))
    × (match digest t (digest.sum_256 t) ≡ true)
token_pair_example = token_pair digest zeros (omega arith) refl

pub token_hashed :
    (d : Digest) → hash d token ≡ ok (hash_prefix ++ Hex.encode_to_string (d.sum_256 token))
unfolding hash
token_hashed d = rw token_valid
