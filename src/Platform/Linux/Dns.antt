-- ===== src/Platform/Linux/Dns.antt =====
-- internal/platform/client_linux.go: the commands for DNS and what is left of them.
use veilink.Prelude.{
  codes, All, ℤ, Bytes, ◌≡◌, inl, inr, refl, sym, ◌∙◌, ap, arith, List, [], ◌∷◌, ◌++◌, Option, none,
  some, true, false, Bool, Bool-cases, reverse,
}
use mathlib.Core.List.{append_assoc}
use veilink.Netip.{Addr}
use veilink.Platform.Linux.{
  resolvectl, dns_steps, route_steps, ipv6_steps, dns_command, domain_command, LinuxRoute,
  ClientOptions, default_route, setup_client, client_steps, Command, Step, runs, tests, Progress,
  begin, rollback, after_run, run_steps,
}
use veilink.Platform.Linux.Transaction.{commands, undos, run_steps-worked, run_steps-stops}

rollback-ran :
    (s : Progress) (c : Command) (cs us : List Command)
    → s.ran ≡ cs
    → s.completed ≡ us
    → (rollback (after_run c s)).ran ≡ (cs ++ c ∷ []) ++ reverse us
unfolding rollback
rollback-ran s c cs us ran left = rw (← ran, ← left) refl

module _ (show : Addr → Bytes) (itoa : ℤ → Bytes) (works : List Command → Command → Bool)
    (found : Bool) where
  abbrev pub before_domain : ClientOptions → LinuxRoute → List Step
  before_domain o orig =
      route_steps show itoa o orig
      ++ (ipv6_steps show itoa o ++ tests found ∷ runs (dns_command show itoa o) none ∷ [])

  split_domain :
      (o : ClientOptions) (orig : LinuxRoute) (a : Addr) (more : List Addr)
      → o.dns ≡ a ∷ more
      → (undo : Option Command) × (client_steps show itoa found o orig
          ≡ before_domain o orig ++ runs (domain_command show itoa o) undo ∷ [])
  unfolding client_steps
  split_domain o orig a more asked =
      let undo = resolvectl (codes "revert" ∷ o.interface ∷ []) in
      let before = tests found ∷ runs (dns_command show itoa o) none ∷ [] in
      let last = runs (domain_command show itoa o) (some undo) ∷ [] in
      let ends : dns_steps show itoa found o ≡ before ++ last = ground (arith, asked) in
      (
        some undo,
        ap (λ xs. route_steps show itoa o orig ++ (ipv6_steps show itoa o ++ xs)) ends
            ∙ ap (λ xs. route_steps show itoa o orig ++ xs)
                (sym (append_assoc (ipv6_steps show itoa o) before last)),
      )

  setup_client_runs :
      (routes : List LinuxRoute) (o : ClientOptions) (orig : LinuxRoute)
      → default_route o.interface routes ≡ some orig
      → setup_client show itoa works found (some routes) o
        ≡ run_steps works (client_steps show itoa found o orig) begin
  unfolding setup_client
  setup_client_runs routes o orig route = rw (route, setup_client) refl

  only_ip :
      (o : ClientOptions) (orig : LinuxRoute)
      → All (λ c. c.name ≡ codes "ip") (reverse (undos (before_domain o orig)))
  unfolding undos
  only_ip o orig = elim (Bool-cases o.block_ipv6) [
    | inl on ↦ rw on (refl, (refl, (refl, (refl, (refl, (refl, (refl, tt)))))))
    | inr off ↦ rw off (refl, (refl, (refl, (refl, (refl, tt)))))
  ]

  -- Where DNS servers are asked for and every step of `SetupClient` works up to "resolvectl
  -- domain", which fails, `SetupClient` fails, and all that it runs after that is `ip`, so that
  -- nothing undoes "resolvectl dns".
  pub setup_client_keeps_dns :
      (routes : List LinuxRoute) (o : ClientOptions) (orig : LinuxRoute) (a : Addr)
      (more : List Addr)
      → o.dns ≡ a ∷ more
      → default_route o.interface routes ≡ some orig
      → (run_steps works (before_domain o orig) begin).1 ≡ true
      → works (run_steps works (before_domain o orig) begin).0.ran (domain_command show itoa o)
        ≡ false
      → (back : List Command) × ((setup_client show itoa works found (some routes) o).1 ≡ false)
        × ((setup_client show itoa works found (some routes) o).0.ran
            ≡ (commands (before_domain o orig) ++ domain_command show itoa o ∷ []) ++ back)
        × All (λ c. c.name ≡ codes "ip") back
  setup_client_keeps_dns routes o orig a more asked route worked fails =
      let (undo, split) = split_domain o orig a more asked in
      let (ran, left) = run_steps-worked works (before_domain o orig) begin worked in
      let ends =
        setup_client_runs routes o orig route
        ∙ ap (λ xs. run_steps works xs begin) split
        ∙ run_steps-stops works (before_domain o orig) [] (domain_command show itoa o) undo begin
            worked fails in
      (
        reverse (undos (before_domain o orig)),
        ap (λ r. r.1) ends,
        ap (λ r. r.0.ran) ends ∙ rollback-ran _ (domain_command show itoa o) _ _ ran left,
        only_ip o orig,
      )
