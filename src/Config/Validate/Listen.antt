-- ===== src/Config/Validate/Listen.antt =====
-- internal/config/config.go: `validateListen` accepts the listeners that only this machine reaches.
use veilink.Prelude.{
  ◌≡◌, ◌≢◌, ◌⊎◌, ◌↔◌, ◌≤◌, ◌<◌, arith, inl, inr, true, some, Option-cases, Bool-cases, Bytes, codes,
  bytes_eq, bytes_eq_iff,
}
use veilink.Netip.{Addr, invalid, v4, v6, is_loopback}
use veilink.Config.{Readers}
use veilink.Config.Validate.{validate_listen}
use veilink.Config.Validate.Shapes.{differ}

-- 127.0.0.0/8, or ::1.
abbrev pub IsLoopback : Addr → Type 0
IsLoopback invalid = ⊥
IsLoopback (v4 a) = (2130706432 ≤ a) × (a < 2147483648)
IsLoopback (v6 a zone) = a ≡ 1

is_loopback_exact : (ip : Addr) → (is_loopback ip ≡ true) ↔ IsLoopback ip
is_loopback_exact invalid = (λ e. absurd (ground (arith, e)), λ h. absurd h)
is_loopback_exact (v4 a) = (λ e. (ground (arith, e), ground (arith, e)), λ h. ground (arith, h))
is_loopback_exact (v6 a zone) = (λ e. ground (arith, e), λ h. ground (arith, h))

module _ (r : Readers) where
  -- A listener that only this machine reaches: a port that is given, at `localhost` or a loopback
  -- address.
  pub record IsLocal (s : Bytes) : Type 0 where
    pub host : Bytes
    pub port : Bytes
    pub split : r.split_host_port s ≡ some (host, port)
    pub port_given : port ≢ codes ""
    pub near :
        (host ≡ codes "localhost") ⊎ ((ip : Addr) × (r.parse_ip host ≡ some ip) × IsLoopback ip)

  validate_listen-IsLocal : (s : Bytes) → validate_listen r s ≡ true → IsLocal s
  unfolding validate_listen
  validate_listen-IsLocal s e = elim (Option-cases (r.split_host_port s)) [
    | inl bad ↦ absurd (ground (arith, bad))
    | inr ((host, port), split) ↦ record {
      host = host;
      port = port;
      split = split;
      port_given = (differ port (codes "")).0 (ground (arith, split));
      near = elim (Bool-cases (bytes_eq host (codes "localhost"))) [
        | inl named ↦ inl ((bytes_eq_iff host (codes "localhost")).0 named)
        | inr other ↦ elim (Option-cases (r.parse_ip host)) [
          | inl bad ↦ absurd (ground (arith, split, other, bad))
          | inr (ip, parsed) ↦
              inr (ip, parsed, (is_loopback_exact ip).0 (ground (arith, split, other, parsed)))
        ]
      ];
    }
  ]

  IsLocal-validate_listen : (s : Bytes) → IsLocal s → validate_listen r s ≡ true
  unfolding validate_listen
  IsLocal-validate_listen s h =
      let given = (differ h.port (codes "")).1 h.port_given in
      elim (Bool-cases (bytes_eq h.host (codes "localhost"))) [
        | inl named ↦ ground (arith, h.split, given, named)
        | inr other ↦ elim h.near [
          | inl named ↦
              absurd (ground (arith, other, (bytes_eq_iff h.host (codes "localhost")).1 named))
          | inr (ip, parsed, near) ↦
              ground (arith, h.split, given, other, parsed, (is_loopback_exact ip).1 near)
        ]
      ]

  pub validate_listen_exact : (s : Bytes) → (validate_listen r s ≡ true) ↔ IsLocal s
  validate_listen_exact s = (validate_listen-IsLocal s, IsLocal-validate_listen s)
