-- ===== src/Protocol/Packet/Header.antt =====
-- internal/protocol/control.go: which packets `IPv4SourceDestination` accepts, and what it reads.
use veilink.Prelude.{
  ℕ, zero, suc, ◌+◌, ◌*◌, ◌/◌, ◌%◌, ◌≤◌, ◌<◌, ◌≡◌, ◌↔◌, ◌≢◌, refl, ap, sym, ◌∙◌, inl, inr, le_or_lt,
  not, ◌||◌, [], ◌∷◌, some, arith, ltb, ◌==◌, le→not_ltb, lt→ltb, get_elem?, length, Bytes, IsBytes,
  Result, ok, err, panic, if◌then◌else◌,
}
use veilink.Netip.{Addr, addr_from_4}
use veilink.Protocol.Packet.{
  PacketError, too_short, not_ipv4, bad_header_length, bad_total_length, ipv4_source_destination,
}

-- The byte at a position, 0 past the end.
abbrev pub byte : Bytes → ℕ → ℕ
byte [] i = 0
byte (b ∷ bs) zero = b
byte (b ∷ bs) (suc i) = byte bs i

pub get_elem?-byte : (b : Bytes) (i : ℕ) → i < length b → get_elem? b i ≡ some (byte b i)
get_elem?-byte [] i h = absurd (omega arith)
get_elem?-byte (x ∷ b) zero h = refl
get_elem?-byte (x ∷ b) (suc i) h = get_elem?-byte b i (omega arith)

abbrev pub source : Bytes → Addr
source p = addr_from_4 (byte p 12) (byte p 13) (byte p 14) (byte p 15)

abbrev pub destination : Bytes → Addr
destination p = addr_from_4 (byte p 16) (byte p 17) (byte p 18) (byte p 19)

-- An IPv4 packet of RFC 791: version 4, a header of 20 bytes or more inside the total length, and a
-- total length that is the packet's.
pub record IsPacket (p : Bytes) : Type 0 where
  pub version_four : byte p 0 / 16 ≡ 4
  pub header_full : 20 ≤ byte p 0 % 16 * 4
  pub header_inside : byte p 0 % 16 * 4 ≤ length p
  pub total_exact : byte p 2 * 256 + byte p 3 ≡ length p

-- The outcome past the first test.
abbrev classify : Bytes → Result PacketError (Addr × Addr)
classify p =
    let ihl : ℕ = byte p 0 % 16 * 4 in
    let total : ℕ = byte p 2 * 256 + byte p 3 in
    if not (byte p 0 / 16 == 4)
    then err not_ipv4
    else if ltb ihl 20 || ltb (length p) ihl
    then err bad_header_length
    else if ltb total ihl || not (total == length p)
    then err bad_total_length
    else ok (source p, destination p)

ipv4-classify : (p : Bytes) → 20 ≤ length p → ipv4_source_destination p ≡ classify p
unfolding ipv4_source_destination
ipv4-classify p h =
    rw
      (
        le→not_ltb (length p) 20 h,
        get_elem?-byte p 0 (omega arith),
        get_elem?-byte p 2 (omega arith),
        get_elem?-byte p 3 (omega arith),
        get_elem?-byte p 12 (omega arith),
        get_elem?-byte p 13 (omega arith),
        get_elem?-byte p 14 (omega arith),
        get_elem?-byte p 15 (omega arith),
        get_elem?-byte p 16 (omega arith),
        get_elem?-byte p 17 (omega arith),
        get_elem?-byte p 18 (omega arith),
        get_elem?-byte p 19 (omega arith),
      )
      (ground arith)

ipv4_short : (p : Bytes) → length p < 20 → ipv4_source_destination p ≡ err too_short
unfolding ipv4_source_destination
ipv4_short p h = rw (lt→ltb (length p) 20 h)

classify-ok :
    (p : Bytes) (r : Addr × Addr) → classify p ≡ ok r → IsPacket p × (r ≡ (source p, destination p))
classify-ok p r e = ground arith

classify-IsPacket : (p : Bytes) → IsPacket p → classify p ≡ ok (source p, destination p)
classify-IsPacket p h = ground arith

-- Soundness of the check.
pub ipv4-IsPacket :
    (p : Bytes) (r : Addr × Addr)
    → ipv4_source_destination p ≡ ok r
    → IsPacket p × (r ≡ (source p, destination p))
ipv4-IsPacket p r e = elim (le_or_lt 20 (length p)) [
  | inl long ↦ classify-ok p r (sym (ipv4-classify p long) ∙ e)
  | inr short ↦ cc (ipv4_short p short)
]

-- Completeness of the check.
pub ipv4_of_IsPacket :
    (p : Bytes) → IsPacket p → ipv4_source_destination p ≡ ok (source p, destination p)
ipv4_of_IsPacket p h =
    ipv4-classify p (omega (arith, h.header_full, h.header_inside)) ∙ classify-IsPacket p h

-- `IPv4SourceDestination` gives a pair of addresses if and only if the packet has version 4, a
-- header of at least 20 bytes inside the packet and a total length that is its own, and the pair is
-- its bytes 12 to 15 and 16 to 19.
pub ipv4_exact :
    (p : Bytes) (r : Addr × Addr)
    → (ipv4_source_destination p ≡ ok r) ↔ (IsPacket p × (r ≡ (source p, destination p)))
ipv4_exact p r = (ipv4-IsPacket p r, λ h. ipv4_of_IsPacket p h.0 ∙ ap ok (sym h.1))

classify-ne-panic : (p : Bytes) → classify p ≢ panic
classify-ne-panic p e = ground arith

-- `IPv4SourceDestination` reads no byte out of range, on any input.
pub ipv4-ne-panic : (p : Bytes) → ipv4_source_destination p ≢ panic
ipv4-ne-panic p e = elim (le_or_lt 20 (length p)) [
  | inl long ↦ classify-ne-panic p (sym (ipv4-classify p long) ∙ e)
  | inr short ↦ cc (ipv4_short p short)
]

byte-lt : (p : Bytes) (i : ℕ) → IsBytes p → byte p i < 256
byte-lt [] i h = omega arith
byte-lt (b ∷ p) zero h = h.0
byte-lt (b ∷ p) (suc i) h = byte-lt p i h.1

-- An accepted packet fits a frame.
pub IsPacket-length : (p : Bytes) → IsBytes p → IsPacket p → length p ≤ 65535
IsPacket-length p b h = omega (arith, h.total_exact, byte-lt p 2 b, byte-lt p 3 b)
