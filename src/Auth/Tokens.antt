-- ===== src/Auth/Tokens.antt =====
-- internal/auth/token.go: a generated token is valid, its digest is read back, and matches.
use veilink.Prelude.{
  inl, inr, Bool-cases, Option-cases, has_prefix, has_prefix-split, has_prefix-append, has_prefix,
  has_prefix-append, Bool-cases, ◌≡◌, refl, true, [], ◌∷◌, ◌++◌, arith, some, length, Bytes,
  IsBytes, bytes_eq_refl, bytes_eq_iff, has_prefix-append_right, drop-append_right, ok, ◌↔◌,
}
use veilink.Encoding.Base64
use veilink.Encoding.Hex
use veilink.Auth.{
  Digest, prefix, hash_prefix, trim_prefix, generate, validate, parse_hash, hash, match,
}

pub validate_generated :
    (raw token : Bytes)
    → IsBytes raw
    → length raw ≡ 32
    → generate (some raw) ≡ ok token
    → validate token ≡ ok tt
unfolding generate validate
validate_generated raw token h n e = ground (arith, Base64.decode-encode_to_string raw h)

parse_hash_of_digest :
    (b : Bytes)
    → IsBytes b
    → length b ≡ 32
    → parse_hash (hash_prefix ++ Hex.encode_to_string b) ≡ ok b
unfolding parse_hash
parse_hash_of_digest b h n = rw (Hex.decode-encode_to_string b h, n)

-- A text that stands for 32 bytes in URL-safe base64, behind the prefix.
pub record IsToken (token : Bytes) : Type 0 where
  pub text : Bytes
  pub raw : Bytes
  pub shape : token ≡ prefix ++ text
  pub decoded : Base64.decode_string text ≡ some raw
  pub size : length raw ≡ 32

validate-IsToken : (token : Bytes) → validate token ≡ ok tt → IsToken token
unfolding validate
validate-IsToken token v = elim (Bool-cases (has_prefix token prefix)) [
  | inr bad ↦ absurd (ground (arith, bad))
  | inl behind ↦ elim (Option-cases (Base64.decode_string (trim_prefix token prefix))) [
    | inl bad ↦ absurd (ground (arith, behind, bad))
    | inr (raw, decoded) ↦ record {
      text = trim_prefix token prefix;
      raw = raw;
      shape = has_prefix-split token prefix behind;
      decoded = decoded;
      size = ground (arith, behind, decoded);
    }
  ]
]

IsToken-validate : (token : Bytes) → IsToken token → validate token ≡ ok tt
unfolding validate
IsToken-validate token h =
    rw (h.shape) (ground (arith, has_prefix-append prefix h.text, h.decoded, h.size))

pub validate_exact : (token : Bytes) → (validate token ≡ ok tt) ↔ IsToken token
validate_exact token = (validate-IsToken token, IsToken-validate token)

-- Where `Validate` accepts a token, it accepts the token with a line feed behind it.
pub validate_line_end :
    (token : Bytes) → validate token ≡ ok tt → validate (token ++ 10 ∷ []) ≡ ok tt
unfolding validate
validate_line_end token v = ground (
  arith,
  has_prefix-append_right token prefix (10 ∷ []),
  drop-append_right token prefix (10 ∷ []),
  Base64.decode_string_line_end (trim_prefix token prefix),
)

module _ (d : Digest) where
  pub parse_hash-hash :
      (token : Bytes) {encoded : Bytes}
      → hash d token ≡ ok encoded
      → parse_hash encoded ≡ ok (d.sum_256 token)
  unfolding hash
  parse_hash-hash token {encoded} e = ground (
    arith,
    parse_hash_of_digest (d.sum_256 token) (d.sum_256-IsBytes token) (d.length-sum_256 token),
  )

  hash_valid :
      (token : Bytes)
      → validate token ≡ ok tt
      → hash d token ≡ ok (hash_prefix ++ Hex.encode_to_string (d.sum_256 token))
  unfolding hash
  hash_valid token v = rw v

  -- Against a digest that `ParseHash` read from what `Hash` gave for a token, `Match` accepts a
  -- text if and only if its digest is that of the token.
  pub match_hashed :
      (token other : Bytes) {encoded : Bytes} {expected : Bytes}
      → hash d token ≡ ok encoded
      → parse_hash encoded ≡ ok expected
      → (match d other expected ≡ true) ↔ (d.sum_256 other ≡ d.sum_256 token)
  unfolding match
  match_hashed token other {encoded} {expected} e p =
      let same : expected ≡ d.sum_256 token = cc (parse_hash-hash token e) in
      rw same (bytes_eq_iff (d.sum_256 other) (d.sum_256 token))

  -- From 32 random bytes `Generate` gives a token that `Validate` accepts and `Hash` turns into a
  -- text; `ParseHash` reads from that text the digest of the token, which `Match` accepts for the
  -- token.
  pub token_pair :
      (raw : Bytes)
      → IsBytes raw
      → length raw ≡ 32
      → (token encoded : Bytes) × (generate (some raw) ≡ ok token)
        × (validate token ≡ ok tt)
        × (hash d token ≡ ok encoded)
        × (parse_hash encoded ≡ ok (d.sum_256 token))
        × (match d token (d.sum_256 token) ≡ true)
  unfolding generate match
  token_pair raw h n =
      let token : Bytes = prefix ++ Base64.encode_to_string raw in
      let valid = validate_generated raw token h n refl in
      let hashed = hash_valid token valid in
      (
        token,
        hash_prefix ++ Hex.encode_to_string (d.sum_256 token),
        refl,
        valid,
        hashed,
        parse_hash-hash token hashed,
        bytes_eq_refl (d.sum_256 token),
      )
