-- ===== src/Platform/Linux/Tests.antt =====
-- internal/platform/client_linux.go: a machine where only one command fails.
use veilink.Prelude.{
  ◌≡◌, ◌++◌, refl, List, [], ◌∷◌, Bool, Bytes, All, codes, pos, ℤ, some, true, false, not, bytes_eq,
}
use veilink.Netip.{Addr, v4}
use veilink.Platform.Linux.{
  Command, LinuxRoute, ClientOptions, ServerOptions, default_route, setup_client, setup_server,
  client_steps, server_steps, run_steps, begin, domain_command,
}
use veilink.Platform.Linux.Transaction.{commands}
use veilink.Platform.Linux.Dns.{before_domain, setup_client_keeps_dns}

abbrev show : Addr → Bytes
show a = codes "10.0.0.1"

abbrev itoa : ℤ → Bytes
itoa n = codes "24"

abbrev route : LinuxRoute
route = record { gateway = codes "192.168.0.1"; dev = codes "eth0" }

abbrev options : ClientOptions
options = record {
  interface = codes "veilink0";
  address = v4 172818434;
  gateway = v4 172818433;
  server_ip = v4 16909060;
  mtu = pos 1280;
  dns = v4 16843009 ∷ [];
  block_ipv6 = true;
}

abbrev server_options : ServerOptions
server_options = record {
  interface = codes "veilink0";
  gateway = v4 172818433;
  bits = pos 24;
  mtu = pos 1280;
}

abbrev routes : List LinuxRoute
routes = record { gateway = codes ""; dev = codes "eth1" } ∷ route ∷ []

-- Every command works but the one with this first argument.
abbrev all_but : Bytes → List Command → Command → Bool
all_but word ran c = elim c.arguments [ [] ↦ true | a ∷ rest ↦ not (bytes_eq a word) ]

found_route : default_route options.interface routes ≡ some route
unfolding default_route
found_route = refl

works : (setup_client show itoa (all_but (codes "none")) true (some routes) options).1 ≡ true
unfolding setup_client default_route client_steps run_steps
works = refl

works_before :
    (run_steps
      (all_but (codes "domain"))
      (before_domain show itoa (all_but (codes "domain")) true options route)
      begin).1
    ≡ true
unfolding run_steps
works_before = refl

setup_client_keeps_dns_example :
    (back : List Command) × ((setup_client show itoa
        (all_but (codes "domain"))
        true
        (some routes)
        options).1
      ≡ false)
    × ((setup_client show itoa (all_but (codes "domain")) true (some routes) options).0.ran
        ≡ (commands (before_domain show itoa (all_but (codes "domain")) true options route)
            ++ domain_command show itoa options ∷ [])
          ++ back)
    × All (λ c. c.name ≡ codes "ip") back
setup_client_keeps_dns_example =
    setup_client_keeps_dns show itoa (all_but (codes "domain")) true routes options route
      (v4 16843009) [] refl found_route works_before refl

server_fails : (setup_server show itoa (all_but (codes "link")) true server_options).1 ≡ false
unfolding setup_server server_steps run_steps
server_fails = refl
