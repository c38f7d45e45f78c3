-- ===== src/Platform/Windows/Tests.antt =====
-- internal/platform/client_windows.go: a system where every command works, and one where no DNS server
-- can be set.
use veilink.Prelude.{
  ◌≡◌, ◌++◌, refl, List, [], ◌∷◌, Bool, Bytes, codes, pos, ℤ, some, none, true, false, eq_ℤ,
  if◌then◌else◌,
}
use veilink.Netip.{Addr, v4}
use veilink.Logging.{to_lower, is_ascii}
use veilink.Platform.Linux.{ClientOptions}
use veilink.Platform.Windows.{
  Cmdlet, set_dns, WindowsRoute, WindowsHost, setup_client, cleanup_commands, run_script,
  run_creations, usable_route, read_env, value_in, split_entry,
}
use veilink.Platform.Windows.Standing.{standing, route, address}
use veilink.Platform.Windows.Undone.{failed_leaves_nothing, cleaned_up_leaves_nothing}
use veilink.Platform.Windows.Commas.{HasNoComma}
use veilink.Platform.Windows.Exact.{set_up_makes, ipv6_things, dns_things, blocks}

abbrev mapped : Bytes → Bytes
mapped s = s

abbrev show : Addr → Bytes
show a = codes "10.77.0.2"

abbrev itoa : ℤ → Bytes
itoa n = if eq_ℤ n (pos 7) then codes "7" else codes "4"

abbrev options : ClientOptions
options = record {
  interface = codes "veilink0";
  address = v4 172818434;
  gateway = v4 172818433;
  server_ip = v4 16909060;
  mtu = pos 1280;
  dns = v4 16843009 ∷ [];
  block_ipv6 = false;
}

abbrev home : WindowsRoute
home = record { interface_index = pos 4; next_hop = codes "192.168.0.1" }

-- The tunnel is interface 7; a default route on it is passed over.
abbrev host : (Cmdlet → Bool) → WindowsHost
host works = record {
  adapter = some (pos 7);
  default_routes = record { interface_index = pos 7; next_hop = codes "1.1.1.1" } ∷ home ∷ [];
  works = λ ran c. works c;
  json_reads = λ r. some r;
}

abbrev always : Cmdlet → Bool
always c = true

abbrev no_dns : Cmdlet → Bool
no_dns (set_dns on servers) = false
no_dns _ = true

-- A variable of the system, in lower case, that the options say nothing of.
abbrev environ : List Bytes
environ = codes "veilink_block_ipv6=1" ∷ codes "Path=C:" ∷ []

failed : (setup_client mapped show itoa (host no_dns) environ options).cleanup ≡ none
unfolding setup_client run_script run_creations usable_route read_env value_in split_entry to_lower
    is_ascii
failed = refl

failed_leaves_nothing_example :
    standing (setup_client mapped show itoa (host no_dns) environ options).ran [] ≡ []
failed_leaves_nothing_example =
    failed_leaves_nothing mapped show itoa environ options (host no_dns) (λ r. refl) failed

worked : (setup_client mapped show itoa (host always) environ options).cleanup ≡ some home
unfolding setup_client run_script run_creations usable_route read_env value_in split_entry to_lower
    is_ascii
worked = refl

cleaned_up_leaves_nothing_example :
    standing
      ((setup_client mapped show itoa (host always) environ options).ran
        ++ cleanup_commands mapped show itoa (host always).adapter environ options home)
      []
    ≡ []
cleaned_up_leaves_nothing_example =
    cleaned_up_leaves_nothing mapped show itoa environ options (host always) home (λ r. refl) worked

found : usable_route (pos 7) (host always).default_routes ≡ some home
unfolding usable_route
found = refl

-- The inherited variable blocks IPv6.
inherited : blocks mapped show itoa environ options ≡ true
unfolding read_env value_in split_entry to_lower is_ascii
inherited = refl

dotted : HasNoComma (codes "10.77.0.2")
dotted = (refl, (refl, (refl, (refl, (refl, (refl, (refl, (refl, (refl, tt)))))))))

set_up_makes_example :
    standing (setup_client mapped show itoa (host always) environ options).ran []
    ≡ address (codes "10.77.0.2") (codes "7")
      ∷ route (codes "10.77.0.2" ++ codes "/32") (codes "4") (codes "192.168.0.1")
      ∷ route (codes "10.77.0.2" ++ codes "/32") (codes "7") (codes "0.0.0.0")
      ∷ route (codes "0.0.0.0/1") (codes "7") (codes "0.0.0.0")
      ∷ route (codes "128.0.0.0/1") (codes "7") (codes "0.0.0.0")
      ∷ (ipv6_things (blocks mapped show itoa environ options) (codes "7")
          ++ dns_things (codes "7") (codes "10.77.0.2" ∷ []))
set_up_makes_example =
    set_up_makes mapped show itoa environ options (host always) (pos 7) home
      (((λ e. cc), dotted), tt) refl found (λ ran c. refl)
