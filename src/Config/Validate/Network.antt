-- ===== src/Config/Validate/Network.antt =====
-- internal/config/config.go: `isNetworkOrBroadcast` finds the two ends of an IPv4 prefix.
use Prim.Native.Nat.{max, digits, bit_or-bitwise}
use native.Mathlib.Nat.{mul-le-mul_right, pow-suc, one-le-pow, pow-le-pow_right}
use veilink.Prelude.{
  ◌%◌, ℕ, zero, suc, ◌+◌, ◌-◌, ◌*◌, ◌/◌, ◌^◌, ◌≤◌, ◌<◌, ◌≡◌, refl, ap, ◌∙◌, ◌↔◌, ◌⊎◌, inl, inr,
  true, ◌||◌, arith, ◌==◌, le_or_lt, bit_or,
}
use veilink.Netip.{v4, prefix, clear_low, contains}
use veilink.Config.Validate.{is_network_or_broadcast, host_mask}

-- Numbers whose binary digits do not meet are added by `|`.
or_disjoint :
    (n k q a b : ℕ) → a ≤ n → a ≡ q * 2 ^ k → b < 2 ^ k → digits (λ y. y) max n a b ≡ a + b
or_disjoint zero k q zero b h e l = omega arith
or_disjoint zero k q (suc a) b h e l = absurd (omega arith)
or_disjoint (suc n) k q zero b h e l = omega arith
or_disjoint (suc n) zero q (suc a) b h e l = omega (
  arith,
  or_disjoint n zero (suc a / 2) (suc a / 2) (b / 2) (omega arith) (omega arith) (omega arith),
)
or_disjoint (suc n) (suc k) q (suc a) b h e l =
    let twice : suc a ≡ 2 * (q * 2 ^ k) = omega (arith, ap (λ (t : ℕ). q * t) (pow-suc 2 k)) in
    omega (
      arith,
      or_disjoint n k q (suc a / 2) (b / 2) (omega arith) (omega arith)
          (omega (arith, pow-suc 2 k)),
    )

bit_or_low : (k a : ℕ) → bit_or (clear_low k a) (2 ^ k - 1) ≡ clear_low k a + (2 ^ k - 1)
bit_or_low k a =
    bit_or-bitwise (clear_low k a) (2 ^ k - 1)
    ∙ or_disjoint (clear_low k a) k (a / 2 ^ k) (clear_low k a) (2 ^ k - 1) (omega arith) refl
        (omega (arith, one-le-pow k 2))

host_mask_lem : (k : ℕ) → k ≤ 32 → host_mask k ≡ 2 ^ k - 1
host_mask_lem k h = elim (le_or_lt 32 k) [
  | inl whole ↦ let e : k ≡ 32 = omega arith in rw e refl
  | inr less ↦
      let b : 2 ^ k ≤ 2 ^ 31 =
        pow-le-pow_right {n = 2} (omega arith) {i = k} {j = 31} (omega arith) in
      omega (arith, b, one-le-pow k 2)
]

one_of_two : (x a b : ℕ) → ((x == a || x == b) ≡ true) ↔ ((x ≡ a) ⊎ (x ≡ b))
one_of_two x a b = (λ e. ground arith, λ e. ground arith)

-- For an IPv4 prefix of at most 32 bits, `isNetworkOrBroadcast` holds of an IPv4 address if and
-- only if it is the first address of the prefix or the last.
pub is_network_or_broadcast_exact :
    (a n x : ℕ)
    → n ≤ 32
    → (is_network_or_broadcast (prefix (v4 a) n) (v4 x) ≡ true)
      ↔ ((x ≡ clear_low (32 - n) a) ⊎ (x ≡ clear_low (32 - n) a + (2 ^ (32 - n) - 1)))
unfolding is_network_or_broadcast
is_network_or_broadcast_exact a n x h =
    rw (host_mask_lem (32 - n) (omega arith), bit_or_low (32 - n) a)
      (one_of_two x (clear_low (32 - n) a) (clear_low (32 - n) a + (2 ^ (32 - n) - 1)))

-- No bit of a number is lost where its low bits are cleared, if and only if it is a multiple.
pub clear_low_exact : (k a : ℕ) → (clear_low k a ≡ a) ↔ (a % 2 ^ k ≡ 0)
clear_low_exact k a = (λ e. omega (arith, one-le-pow k 2), λ e. omega (arith, one-le-pow k 2))

same_quotient : (k b g : ℕ) → 1 ≤ k → b % k ≡ 0 → (b / k ≡ g / k) ↔ ((b ≤ g) × (g < b + k))
same_quotient k b g some_size whole = (
  (λ e.
      let scaled : b / k * k ≡ g / k * k = ap (λ (q : ℕ). q * k) e in
      (omega (arith), omega (arith))),
  (λ (low, high). elim (le_or_lt (g / k) (b / k)) [
    | inl at_most ↦ elim (le_or_lt (b / k) (g / k)) [
      | inl at_least ↦ omega arith
      | inr less ↦
          let scaled : suc (g / k) * k ≤ b / k * k = mul-le-mul_right k (omega arith) in
          absurd (omega arith)
    ]
    | inr more ↦
        let scaled : suc (b / k) * k ≤ g / k * k = mul-le-mul_right k (omega arith) in
        absurd (omega arith)
  ]),
)

-- The addresses of a prefix are those from its first on, as many as it has.
pub contains_exact :
    (base size g : ℕ)
    → base % 2 ^ (32 - size) ≡ 0
    → (contains (prefix (v4 base) size) (v4 g) ≡ true) ↔ ((base ≤ g) × (g < base + 2 ^ (32 - size)))
contains_exact base size g whole =
    let q = same_quotient (2 ^ (32 - size)) base g (one-le-pow (32 - size) 2 (omega arith)) whole in
    (λ e. q.0 (ground (arith, e)), λ h. let e = q.1 h in ground (arith, e))
