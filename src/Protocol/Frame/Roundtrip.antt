-- ===== src/Protocol/Frame/Roundtrip.antt =====
-- internal/protocol/frame.go: `Encode` and `Decode` are inverse to one another, and a message holds
-- one frame exactly.
use veilink.Prelude.{
  length-append, ℕ, ◌+◌, ◌*◌, ◌/◌, ◌%◌, ◌≤◌, ◌<◌, ◌≡◌, sym, ◌∙◌, ◌≢◌, inl, inr, true, ◌∷◌, ◌++◌,
  arith, length, Bytes, IsBytes, ok, err, panic, subst,
}
use veilink.Protocol.Frame.{Frame, length_mismatch, valid_type, encode, decode, max_packet_size}
use veilink.Protocol.Frame.Codec.{
  header, encode_fits, encode_bad_type, encode_too_large, Header-cases, decode_short, parse,
  decode_lem,
}

-- What `Encode` accepts: a known type, a payload of at most 65,535 bytes. It never panics.
pub record Encodes (typ flags : ℕ) (payload b : Bytes) : Type 0 where
  pub known : valid_type typ ≡ true
  pub fits : length payload ≤ max_packet_size
  pub written : b ≡ header typ flags (length payload) ++ payload

pub encode-Encodes :
    (typ flags : ℕ) (payload b : Bytes)
    → encode typ flags payload ≡ ok b
    → Encodes typ flags payload b
encode-Encodes typ flags payload b e = ground (
  arith,
  encode_fits typ flags payload,
  encode_bad_type typ flags payload,
  encode_too_large typ flags payload,
)

parse_header :
    (typ flags : ℕ) (payload : Bytes)
    → valid_type typ ≡ true
    → flags < 65536
    → length payload ≤ max_packet_size
    → decode (header typ flags (length payload) ++ payload)
      ≡ ok (record { typ = typ; flags = flags; payload = payload })
parse_header typ flags payload v hf h =
    let f : (flags / 256 % 256) * 256 + flags % 256 ≡ flags = omega arith in
    let n : (length payload / 256 % 256) * 256 + length payload % 256 ≡ length payload =
      omega arith in
    decode_lem _ _ _ _ _ _ _ _ payload ∙ rw (f, n) (ground arith)

-- Where `Encode` of a type, flags below 65536 and a payload gives bytes, `Decode` of these bytes
-- gives that type, these flags and that payload.
pub decode-encode :
    (typ flags : ℕ) (payload : Bytes) {b : Bytes}
    → flags < 65536
    → encode typ flags payload ≡ ok b
    → decode b ≡ ok (record { typ = typ; flags = flags; payload = payload })
decode-encode typ flags payload {b} hf e =
    let w = encode-Encodes typ flags payload b e in
    rw (w.written) (parse_header typ flags payload w.known hf w.fits)

parse_inverse :
    (b0 b1 b2 b3 b4 b5 b6 b7 : ℕ) (rest : Bytes) (f : Frame)
    → parse b0 b1 b2 b3 (b4 * 256 + b5) (b6 * 256 + b7) rest ≡ ok f
    → (b4 < 256)
    → (b5 < 256)
    → (b6 < 256)
    → (b7 < 256)
    → encode f.typ f.flags f.payload ≡ ok (b0 ∷ b1 ∷ b2 ∷ b3 ∷ b4 ∷ b5 ∷ b6 ∷ b7 ∷ rest)
parse_inverse b0 b1 b2 b3 b4 b5 b6 b7 rest f e h4 h5 h6 h7 =
    ground (arith, encode_fits b3 (b4 * 256 + b5) rest)

-- Where `Decode` accepts a string of bytes, `Encode` of the frame gives the same bytes: a frame has
-- one encoding.
pub encode-decode :
    (b : Bytes) {f : Frame} → IsBytes b → decode b ≡ ok f → encode f.typ f.flags f.payload ≡ ok b
encode-decode b {f} h e = elim (Header-cases b) [
  | inl short ↦ cc (decode_short b short)
  | inr (b0, b1, b2, b3, b4, b5, b6, b7, rest, eq) ↦
      let h' : IsBytes (b0 ∷ b1 ∷ b2 ∷ b3 ∷ b4 ∷ b5 ∷ b6 ∷ b7 ∷ rest) = subst IsBytes eq h in
      let e' : parse b0 b1 b2 b3 (b4 * 256 + b5) (b6 * 256 + b7) rest ≡ ok f =
        sym (decode_lem b0 b1 b2 b3 b4 b5 b6 b7 rest) ∙ rw eq at e in
      rw eq (
        parse_inverse b0 b1 b2 b3 b4 b5 b6 b7 rest f e' (omega arith) (omega arith) (omega arith)
          (omega arith))
]

-- `Decode` reads no byte out of range, on any input.
pub decode-ne-panic : (b : Bytes) → decode b ≢ panic
decode-ne-panic b e = elim (Header-cases b) [
  | inl short ↦ cc (decode_short b short)
  | inr (b0, b1, b2, b3, b4, b5, b6, b7, rest, eq) ↦
      ground (arith, decode_lem b0 b1 b2 b3 b4 b5 b6 b7 rest)
]

-- Where `Decode` accepts a string of bytes, it refuses this string with further bytes behind it, by
-- a length mismatch.
pub decode_trailing :
    (b : Bytes) (x : ℕ) (c : Bytes) {f : Frame}
    → decode b ≡ ok f
    → decode (b ++ x ∷ c) ≡ err length_mismatch
decode_trailing b x c {f} e = elim (Header-cases b) [
  | inl short ↦ cc (decode_short b short)
  | inr (b0, b1, b2, b3, b4, b5, b6, b7, rest, eq) ↦ rw eq (
      ground (
        arith,
        rw eq at e,
        decode_lem b0 b1 b2 b3 b4 b5 b6 b7 rest,
        decode_lem b0 b1 b2 b3 b4 b5 b6 b7 (rest ++ x ∷ c),
        length-append {0} rest (x ∷ c),
      ))
]
