-- ===== src/Metrics/Text/Tests.antt =====
-- internal/metrics/metrics.go: three sessions, a counter past the range of an `int64`, and zeros.
use veilink.Prelude.{◌≡◌, ◌-◌, ◌^◌, codes, [], ◌∷◌, true, pos, negsuc}
use veilink.Metrics.{Counters, zero_counters}
use veilink.Metrics.Text.{write_prometheus}
use veilink.Metrics.Text.Scraper.{scrape, at_start}
use veilink.Metrics.Text.Scrape.{scrape-write_prometheus}

abbrev counters : Counters
counters = record zero_counters { active_sessions = 3; accepted = 10; dropped = 2 ^ 64 - 1 }

scrape-write_prometheus_example :
    ((write_prometheus 10 counters).1 ≡ true)
    × (scrape at_start (write_prometheus 10 counters).0
        ≡ (codes "veilink_active_sessions", pos 3)
          ∷ (codes "veilink_sessions_accepted_total", pos 10)
          ∷ (codes "veilink_auth_rejected_total", pos 0)
          ∷ (codes "veilink_packets_from_tun_total", pos 0)
          ∷ (codes "veilink_packets_to_tun_total", pos 0)
          ∷ (codes "veilink_bytes_from_tun_total", pos 0)
          ∷ (codes "veilink_bytes_to_tun_total", pos 0)
          ∷ (codes "veilink_packets_dropped_total", negsuc 0)
          ∷ (codes "veilink_invalid_packets_total", pos 0)
          ∷ [])
scrape-write_prometheus_example = scrape-write_prometheus 1 counters
