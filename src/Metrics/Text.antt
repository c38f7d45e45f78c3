-- ===== src/Metrics/Text.antt =====
-- internal/metrics/metrics.go: `WritePrometheus`.
pub mod Scraper
pub mod Scrape
mod Tests
use veilink.Prelude.{
  ◌-◌, ◌^◌, ℕ, zero, suc, Bool, true, false, List, [], ◌∷◌, ◌++◌, Bytes, codes, ltb, if◌then◌else◌,
  ℤ, pos, negsuc, ltb_ℤ,
}
use veilink.Metrics.{Counters}
use veilink.Metrics.Decimal.{show_int}

-- `Load` of an `atomic.Int64`.
abbrev pub load : ℕ → ℤ
load c = if ltb c (2 ^ 63) then pos c else negsuc (2 ^ 64 - 1 - c)

pub record Sample : Type 0 where
  pub name : Bytes
  pub help : Bytes
  pub typ : Bytes
  pub val : ℤ

abbrev pub at_least_zero : ℤ → ℤ
at_least_zero v = if ltb_ℤ v (pos 0) then pos 0 else v

abbrev sample : Bytes → Bytes → Bytes → ℤ → Sample
sample name help typ val = record { name = name; help = help; typ = typ; val = val }

abbrev pub samples : Counters → List Sample
samples c =
    sample (codes "veilink_active_sessions") (codes "Current authenticated tunnel sessions.")
      (codes "gauge") (at_least_zero (load c.active_sessions))
    ∷ sample (codes "veilink_sessions_accepted_total") (codes "Authenticated sessions accepted.")
        (codes "counter") (load c.accepted)
    ∷ sample (codes "veilink_auth_rejected_total") (codes "Rejected authentication attempts.")
        (codes "counter") (load c.auth_rejected)
    ∷ sample (codes "veilink_packets_from_tun_total") (codes "Packets read from the server TUN.")
        (codes "counter") (load c.packets_from_tun)
    ∷ sample (codes "veilink_packets_to_tun_total") (codes "Packets written to the server TUN.")
        (codes "counter") (load c.packets_to_tun)
    ∷ sample (codes "veilink_bytes_from_tun_total") (codes "Bytes read from the server TUN.")
        (codes "counter") (load c.bytes_from_tun)
    ∷ sample (codes "veilink_bytes_to_tun_total") (codes "Bytes written to the server TUN.")
        (codes "counter") (load c.bytes_to_tun)
    ∷ sample (codes "veilink_packets_dropped_total")
        (codes "Packets dropped because of backpressure or no route.") (codes "counter")
        (load c.dropped)
    ∷ sample (codes "veilink_invalid_packets_total")
        (codes "Packets rejected by protocol validation.") (codes "counter") (load c.invalid)
    ∷ []

-- `fmt.Fprintf` of one sample.
unfoldable pub text_of : Sample → Bytes
text_of v =
    codes "# HELP "
    ++ (v.name
        ++ (codes " "
            ++ (v.help
                ++ (codes "\n# TYPE "
                    ++ (v.name
                        ++ (codes " "
                            ++ (v.typ
                                ++ (codes "\n"
                                    ++ (v.name
                                        ++ (codes " " ++ (show_int v.val ++ codes "\n")))))))))))

-- The writer takes `works` texts and then fails.
unfoldable pub write_samples : ℕ → List Sample → Bytes → Bytes × Bool
write_samples works [] out = (out, true)
write_samples zero (v ∷ vs) out = (out, false)
write_samples (suc works) (v ∷ vs) out = write_samples works vs (out ++ text_of v)

unfoldable pub write_prometheus : ℕ → Counters → Bytes × Bool
unfolding write_samples
write_prometheus works c = write_samples works (samples c) []
