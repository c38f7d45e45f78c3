-- ===== src/Netip.antt =====
-- What the code uses of net/netip: addresses and prefixes.
use veilink.Prelude.{
  ◌%◌, if◌then◌else◌, [], ℕ, ◌+◌, ◌-◌, ◌*◌, ◌/◌, ◌^◌, ◌≡◌, refl, Bool, true, false, ◌&&◌, ◌||◌,
  arith, ◌==◌, Bytes, bytes_eq, bytes_eq_sound, bytes_eq_refl, Eq,
}

-- `netip.Addr`: its zero value, an IPv4 address of 32 bits, or an IPv6 address of 128 bits with a zone.
pub data Addr : Type 0 where
  invalid : Addr
  v4 : ℕ → Addr
  v6 : ℕ → Bytes → Addr

-- `==` on addresses.
abbrev pub addr_eq : Addr → Addr → Bool
addr_eq invalid invalid = true
addr_eq (v4 a) (v4 b) = a == b
addr_eq (v6 a z) (v6 b y) = (a == b) && bytes_eq z y
addr_eq _ _ = false

abbrev pub is_4 : Addr → Bool
is_4 (v4 a) = true
is_4 _ = false

-- `Unmap`: an IPv4 address in ::ffff:0:0/96 is taken out of it.
abbrev pub unmap : Addr → Addr
unmap (v6 a zone) = if a / 2 ^ 32 == 65535 then v4 (a % 2 ^ 32) else v6 a zone
unmap (v4 a) = v4 a
unmap invalid = invalid

-- `netip.AddrFrom4`.
abbrev pub addr_from_4 : ℕ → ℕ → ℕ → ℕ → Addr
addr_from_4 a b c d = v4 (a * 2 ^ 24 + b * 2 ^ 16 + c * 2 ^ 8 + d)

pub addr_eq_sound : (a b : Addr) → addr_eq a b ≡ true → a ≡ b
addr_eq_sound invalid invalid h = refl
addr_eq_sound (v4 a) (v4 b) h = ground arith
addr_eq_sound (v6 a z) (v6 b y) h = ground (arith, bytes_eq_sound z y)
addr_eq_sound invalid (v4 b) h = cc
addr_eq_sound invalid (v6 b y) h = cc
addr_eq_sound (v4 a) invalid h = cc
addr_eq_sound (v4 a) (v6 b y) h = cc
addr_eq_sound (v6 a z) invalid h = cc
addr_eq_sound (v6 a z) (v4 b) h = cc

pub addr_eq_refl : (a : Addr) → addr_eq a a ≡ true
addr_eq_refl invalid = refl
addr_eq_refl (v4 a) = ground arith
addr_eq_refl (v6 a z) = ground (arith, bytes_eq_refl z)

instance abbrev pub addr_Eq : Eq Addr
addr_Eq = record { beq = addr_eq; beq_sound = addr_eq_sound; beq_refl = addr_eq_refl }

-- `netip.Prefix`: its zero value, or an address with a number of bits.
pub data Prefix : Type 0 where
  no_prefix : Prefix
  prefix : Addr → ℕ → Prefix

abbrev pub prefix_eq : Prefix → Prefix → Bool
prefix_eq no_prefix no_prefix = true
prefix_eq (prefix a m) (prefix b n) = addr_eq a b && m == n
prefix_eq _ _ = false

abbrev pub is_valid : Prefix → Bool
is_valid no_prefix = false
is_valid (prefix a n) = true

abbrev pub prefix_addr : Prefix → Addr
prefix_addr no_prefix = invalid
prefix_addr (prefix a n) = a

-- `Bits` of the zero prefix is -1; the code asks for it only behind a test that fails there.
abbrev pub bits : Prefix → ℕ
bits no_prefix = 0
bits (prefix a n) = n

-- The low `k` bits cleared.
abbrev pub clear_low : ℕ → ℕ → ℕ
clear_low k a = a / 2 ^ k * 2 ^ k

abbrev pub masked : Prefix → Prefix
masked no_prefix = no_prefix
masked (prefix invalid n) = no_prefix
masked (prefix (v4 a) n) = prefix (v4 (clear_low (32 - n) a)) n
masked (prefix (v6 a z) n) = prefix (v6 (clear_low (128 - n) a) z) n

-- No prefix holds an address with a zone, nor one of the other family.
abbrev pub contains : Prefix → Addr → Bool
contains (prefix (v4 a) n) (v4 b) = a / 2 ^ (32 - n) == b / 2 ^ (32 - n)
contains (prefix (v6 a z) n) (v6 b y) = bytes_eq y [] && a / 2 ^ (128 - n) == b / 2 ^ (128 - n)
contains _ _ = false

-- 10.0.0.0/8, 172.16.0.0/12, 192.168.0.0/16 and fc00::/7.
abbrev pub is_private : Addr → Bool
is_private invalid = false
is_private (v4 a) = a / 2 ^ 24 == 10 || (a / 2 ^ 20 == 2753 || a / 2 ^ 16 == 49320)
is_private (v6 a z) = a / 2 ^ 121 == 126

-- `net.IP.IsLoopback`: 127.0.0.0/8 and ::1.
abbrev pub is_loopback : Addr → Bool
is_loopback invalid = false
is_loopback (v4 a) = a / 2 ^ 24 == 127
is_loopback (v6 a z) = a == 1
