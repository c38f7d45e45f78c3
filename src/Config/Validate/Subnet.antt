-- ===== src/Config/Validate/Subnet.antt =====
-- internal/config/config.go: which networks and gateways of a server `Validate` takes.
use veilink.Prelude.{
  ◌+◌, ◌<◌, ◌^◌, ◌%◌, ℕ, ◌-◌, ◌≤◌, ◌≡◌, refl, true, false, Option, none, some, arith,
}
use veilink.Config.Validate.Network.{clear_low_exact, contains_exact}
use veilink.Netip.{
  Addr, v4, v6, invalid, Prefix, prefix, no_prefix, is_valid, contains, clear_low, is_private,
}
use veilink.Config.{Readers}
use veilink.Config.Validate.{bad_network_prefix, bad_gateway_addr}

module _ (r : Readers) where
  -- A private IPv4 prefix of 16 to 30 bits with no bit set past them.
  pub record IsNetwork (p : Prefix) : Type 0 where
    pub base : ℕ
    pub size : ℕ
    pub shape : p ≡ prefix (v4 base) size
    pub private_range : is_private (v4 base) ≡ true
    pub lower : 16 ≤ size
    pub upper : size ≤ 30
    pub canonical : base % 2 ^ (32 - size) ≡ 0

  pub IsNetwork-accepted :
      (o : Option Prefix)
      → bad_network_prefix r o ≡ false
      → (p : Prefix) × (o ≡ some p) × (IsNetwork p)
  unfolding bad_network_prefix
  IsNetwork-accepted none e = cc
  IsNetwork-accepted (some no_prefix) e = cc
  IsNetwork-accepted (some (prefix invalid n)) e = cc
  IsNetwork-accepted (some (prefix (v6 a z) n)) e = cc
  IsNetwork-accepted (some (prefix (v4 a) n)) e = (
    prefix (v4 a) n,
    refl,
    record {
      base = a;
      size = n;
      shape = refl;
      private_range = ground arith;
      lower = ground arith;
      upper = ground arith;
      canonical =
          let whole : clear_low (32 - n) a ≡ a = ground arith in
          (clear_low_exact (32 - n) a).0 whole;
    },
  )

  pub accepted-IsNetwork : (p : Prefix) → IsNetwork p → bad_network_prefix r (some p) ≡ false
  unfolding bad_network_prefix
  accepted-IsNetwork p h = rw (h.shape) (
      ground (
        arith,
        h.private_range,
        h.lower,
        h.upper,
        (clear_low_exact (32 - h.size) h.base).1 h.canonical,
      ))

  -- An IPv4 address of a network.
  pub record IsInside (network : Prefix) (known : IsNetwork network) (gateway : Addr) : Type 0 where
    pub number : ℕ
    pub shape : gateway ≡ v4 number
    pub first : known.base ≤ number
    pub last : number < known.base + 2 ^ (32 - known.size)

  pub gateway_accepted :
      (p : Prefix) (known : IsNetwork p) (o : Option Addr)
      → bad_gateway_addr r p o ≡ false
      → (g : Addr) × (o ≡ some g) × IsInside p known g
  unfolding bad_gateway_addr
  gateway_accepted p known none e = cc
  gateway_accepted p known (some invalid) e = cc
  gateway_accepted p known (some (v6 a zone)) e = cc
  gateway_accepted p known (some (v4 g)) e =
      let held : contains (prefix (v4 known.base) known.size) (v4 g) ≡ true =
        let placed = rw (known.shape) at e in ground (arith, placed) in
      (
        v4 g,
        refl,
        record {
          number = g;
          shape = refl;
          first = ((contains_exact known.base known.size g known.canonical).0 held).0;
          last = ((contains_exact known.base known.size g known.canonical).0 held).1;
        },
      )

  pub gateway_unreported :
      (p : Prefix) (known : IsNetwork p) (g : Addr)
      → IsInside p known g
      → bad_gateway_addr r p (some g) ≡ false
  unfolding bad_gateway_addr
  gateway_unreported p known g h =
      rw (h.shape, known.shape)
        (ground (
          arith,
          (contains_exact known.base known.size h.number known.canonical).1 (h.first, h.last),
        ))

  pub valid_network : (p : Prefix) → IsNetwork p → is_valid p ≡ true
  valid_network p h = rw (h.shape) refl
