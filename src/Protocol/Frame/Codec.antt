-- ===== src/Protocol/Frame/Codec.antt =====
-- internal/protocol/frame.go: what `Encode` and `Decode` compute, and that each undoes the other.
use veilink.Prelude.{
  ℕ, ◌+◌, ◌*◌, ◌/◌, ◌%◌, ◌≤◌, ◌<◌, ◌≡◌, refl, ap, ◌⊎◌, inl, inr, true, false, not, ◌||◌, [], ◌∷◌,
  ◌++◌, arith, ◌==◌, if◌then◌else◌, length, replicate, copy_at, overlay_whole, replicate-add,
  length-replicate, Bytes, Result, ok, err, lt→ltb, le→not_ltb,
}
use veilink.Protocol.Frame.{
  Frame, FrameError, short_frame, invalid_magic, length_mismatch, payload_too_large, invalid_type,
  unsupported_version, valid_type, encode, decode, version, header_size, max_packet_size, magic_0,
  magic_1, put_uint16,
}

-- The eight bytes in front of a payload of `n` bytes.
abbrev pub header : ℕ → ℕ → ℕ → Bytes
header typ flags n =
    magic_0
    ∷ magic_1
    ∷ version
    ∷ typ
    ∷ (flags / 256 % 256)
    ∷ (flags % 256)
    ∷ (n / 256 % 256)
    ∷ (n % 256)
    ∷ []

write_frame :
    (typ flags n : ℕ) (payload : Bytes)
    → copy_at header_size
        (put_uint16 6
          (put_uint16 4
            (copy_at 3
              (copy_at 2
                (copy_at 0 (replicate (header_size + length payload) 0) (magic_0 ∷ magic_1 ∷ []))
                (version ∷ []))
              (typ ∷ []))
            flags)
          n)
        payload
      ≡ header typ flags n ++ payload
write_frame typ flags n payload = rw (replicate-add {A = ℕ} header_size (length payload) 0) (
    ap (λ (p : Bytes). header typ flags n ++ p)
      (overlay_whole {A = ℕ} (replicate (length payload) 0) payload
        (length-replicate {A = ℕ} (length payload) 0)))

-- Encoding a payload that fits writes the header and then the payload.
pub encode_fits :
    (typ flags : ℕ) (payload : Bytes)
    → valid_type typ ≡ true
    → length payload ≤ max_packet_size
    → encode typ flags payload ≡ ok (header typ flags (length payload) ++ payload)
unfolding encode
encode_fits typ flags payload v h =
    let m : length payload % 65536 ≡ length payload = omega arith in
    rw (v, le→not_ltb max_packet_size (length payload) h, m)
      (ap ok (write_frame typ flags (length payload) payload))

pub encode_bad_type :
    (typ flags : ℕ) (payload : Bytes)
    → valid_type typ ≡ false
    → encode typ flags payload ≡ err invalid_type
unfolding encode
encode_bad_type typ flags payload v = rw v

pub encode_too_large :
    (typ flags : ℕ) (payload : Bytes)
    → valid_type typ ≡ true
    → max_packet_size < length payload
    → encode typ flags payload ≡ err payload_too_large
unfolding encode
encode_too_large typ flags payload v h = rw (v, lt→ltb max_packet_size (length payload) h)

-- A byte string is short, or has eight bytes in front.
pub Header-cases :
    (b : Bytes)
    → (length b < 8)
      ⊎ ((b0 b1 b2 b3 b4 b5 b6 b7 : ℕ) × (rest : Bytes) × (b
            ≡ b0 ∷ b1 ∷ b2 ∷ b3 ∷ b4 ∷ b5 ∷ b6 ∷ b7 ∷ rest))
Header-cases (b0 ∷ b1 ∷ b2 ∷ b3 ∷ b4 ∷ b5 ∷ b6 ∷ b7 ∷ rest) =
    inr (b0, b1, b2, b3, b4, b5, b6, b7, rest, refl)
Header-cases _ = inl (omega arith)

pub decode_short : (b : Bytes) → length b < header_size → decode b ≡ err short_frame
unfolding decode
decode_short b h = rw (lt→ltb (length b) header_size h)

-- The outcome of `Decode` on the eight bytes of a header and what follows, in the order of its tests.
abbrev pub parse : ℕ → ℕ → ℕ → ℕ → ℕ → ℕ → Bytes → Result FrameError Frame
parse m0 m1 v typ flags n rest =
    if not (m0 == magic_0) || not (m1 == magic_1)
    then err invalid_magic
    else if not (v == version)
    then err (unsupported_version v)
    else if not (valid_type typ)
    then err invalid_type
    else if not (n == length rest)
    then err length_mismatch
    else ok (record { typ = typ; flags = flags; payload = rest })

pub decode_lem :
    (b0 b1 b2 b3 b4 b5 b6 b7 : ℕ) (rest : Bytes)
    → decode (b0 ∷ b1 ∷ b2 ∷ b3 ∷ b4 ∷ b5 ∷ b6 ∷ b7 ∷ rest)
      ≡ parse b0 b1 b2 b3 (b4 * 256 + b5) (b6 * 256 + b7) rest
unfolding decode
decode_lem b0 b1 b2 b3 b4 b5 b6 b7 rest = ground (
  arith,
  overlay_whole {A = ℕ} (replicate (b6 * 256 + b7) 0) rest,
  length-replicate {A = ℕ} (b6 * 256 + b7) 0,
)
