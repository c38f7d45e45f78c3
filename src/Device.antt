-- ===== src/Device.antt =====
-- internal/device/device.go: the device, over what the TUN library returns.
use veilink.Prelude.{ℤ, pos, eq_ℤ, Bool, false, not, Option, none, some, Bytes, if◌then◌else◌}

-- What a read of the device gives: an error, or a count of bytes and the buffer.
pub data TunRead : Type 0 where
  fault : TunRead
  bytes : ℤ → Bytes → TunRead

-- What `Read` of the library returns for one buffer: an error, or the number of packets, the size of
-- the first one and the buffer.
pub data TunReturn : Type 0 where
  failed : TunReturn
  filled : ℤ → ℤ → Bytes → TunReturn

unfoldable pub read_packet : TunReturn → TunRead
read_packet failed = fault
read_packet (filled n size buf) = if not (eq_ℤ n (pos 1)) then fault else bytes size buf

-- Whether `WritePacket` gives no error; `Write` of the library returns the number of packets.
pub write_packet : Option ℤ → Bool
write_packet none = false
write_packet (some n) = eq_ℤ n (pos 1)
