-- ===== src/Protocol/Packet.antt =====
-- internal/protocol/control.go: `IPv4SourceDestination`, the check of an IPv4 header.
pub mod Header
mod Tests
use veilink.Prelude.{
  ℕ, ◌+◌, ◌*◌, ◌/◌, ◌%◌, ◌^◌, Bool, true, false, ◌&&◌, ◌||◌, not, leb, ltb, ◌==◌, length, Bytes,
  bytes_eq, Result, ok, err, ◌>>=◌, ◌>>◌, fail_if,
}
use veilink.Netip.{Addr, addr_from_4}
use veilink.Protocol.Frame.{index}

pub data PacketError : Type 0 where
  too_short not_ipv4 bad_header_length bad_total_length : PacketError

-- `b >> 4` and `b & 0x0f` of a byte are its quotient and remainder by 16.
pub ipv4_source_destination : Bytes → Result PacketError (Addr × Addr)
ipv4_source_destination packet = do
  fail_if (ltb (length packet) 20) too_short
  b0 ← index packet 0
  fail_if (not (b0 / 16 == 4)) not_ipv4
  let ihl = b0 % 16 * 4
  fail_if (ltb ihl 20 || ltb (length packet) ihl) bad_header_length
  b2 ← index packet 2
  b3 ← index packet 3
  let total = b2 * 256 + b3
  fail_if (ltb total ihl || not (total == length packet)) bad_total_length
  s0 ← index packet 12
  s1 ← index packet 13
  s2 ← index packet 14
  s3 ← index packet 15
  d0 ← index packet 16
  d1 ← index packet 17
  d2 ← index packet 18
  d3 ← index packet 19
  ok (addr_from_4 s0 s1 s2 s3, addr_from_4 d0 d1 d2 d3)
