-- ===== src/Metrics.antt =====
-- internal/metrics/metrics.go: the counters. An `atomic.Int64` is its bit pattern below 2 ^ 64.
pub mod Decimal
pub mod Text
use veilink.Prelude.{ℕ, ◌+◌, ◌-◌, ◌%◌, ◌^◌}

-- `c.Add(n)`.
abbrev pub add : ℕ → ℕ → ℕ
add c n = (c + n) % 2 ^ 64

-- `c.Add(-1)`: -1 is the pattern 2 ^ 64 - 1.
abbrev pub decrement : ℕ → ℕ
decrement c = (c + (2 ^ 64 - 1)) % 2 ^ 64

pub record Counters : Type 0 where
  pub active_sessions : ℕ
  pub accepted : ℕ
  pub auth_rejected : ℕ
  pub packets_from_tun : ℕ
  pub packets_to_tun : ℕ
  pub bytes_from_tun : ℕ
  pub bytes_to_tun : ℕ
  pub dropped : ℕ
  pub invalid : ℕ

abbrev pub zero_counters : Counters
zero_counters = record {
  active_sessions = 0;
  accepted = 0;
  auth_rejected = 0;
  packets_from_tun = 0;
  packets_to_tun = 0;
  bytes_from_tun = 0;
  bytes_to_tun = 0;
  dropped = 0;
  invalid = 0;
}
