-- ===== src/Platform/Linux/Cleanups.antt =====
-- internal/platform/client_linux.go: which cleanup stands with which command of `SetupClient`.
use veilink.Prelude.{
  All, All-append, codes, ℤ, Bytes, ◌≡◌, ◌⊎◌, inl, inr, refl, List, [], ◌∷◌, ◌++◌, none, some, Bool,
  Bool-cases,
}
use veilink.Netip.{Addr}
use veilink.Platform.Linux.{
  Command, Step, runs, tests, LinuxRoute, ClientOptions, resolvectl, host, tunnel_route, ipv6_route,
  route_steps, ipv6_steps, dns_steps, client_steps,
}

-- A cleanup that takes away what an "ip … replace" has put in place.
pub record Reverses (c u : Command) : Type 0 where
  pub object : List Bytes
  pub what : List Bytes
  pub tail : List Bytes
  pub same : u.name ≡ c.name
  pub made : c.arguments ≡ object ++ codes "replace" ∷ (what ++ tail)
  pub removed : u.arguments ≡ object ++ codes "del" ∷ what

-- A step whose command, if it puts an address or a route in place, has a cleanup that removes it.
-- "ip link" and "resolvectl dns" have none, and "resolvectl domain" has "resolvectl revert".
abbrev pub HasCleanup : Bytes → Step → Type 0
HasCleanup on (tests b) = Unit {0}
HasCleanup on (runs c none) =
    ((rest : List Bytes) × (c.arguments ≡ codes "link" ∷ rest))
    ⊎ ((rest : List Bytes) × (c.arguments ≡ codes "dns" ∷ rest))
HasCleanup on (runs c (some u)) =
    Reverses c u
    ⊎ ((c.arguments ≡ codes "domain" ∷ on ∷ codes "~." ∷ [])
        × (u ≡ resolvectl (codes "revert" ∷ on ∷ [])))

module _ (show : Addr → Bytes) (itoa : ℤ → Bytes) where
  reverses :
      (object what tail : List Bytes)
      → Reverses
          (record { name = codes "ip"; arguments = object ++ codes "replace" ∷ (what ++ tail) })
          (record { name = codes "ip"; arguments = object ++ codes "del" ∷ what })
  reverses object what tail = record {
    object = object;
    what = what;
    tail = tail;
    same = refl;
    made = refl;
    removed = refl;
  }

  tunnel_route-HasCleanup :
      (o : ClientOptions) (prefix : Bytes)
      → HasCleanup o.interface (tunnel_route show itoa o prefix)
  tunnel_route-HasCleanup o prefix = inl (
      reverses (codes "route" ∷ [])
        (prefix ∷ codes "via" ∷ show o.gateway ∷ codes "dev" ∷ o.interface ∷ []) [])

  ipv6_route-HasCleanup :
      (o : ClientOptions) (prefix : Bytes) → HasCleanup o.interface (ipv6_route show itoa o prefix)
  ipv6_route-HasCleanup o prefix = inl (
      reverses (codes "-6" ∷ codes "route" ∷ []) (prefix ∷ codes "dev" ∷ o.interface ∷ [])
        (codes "metric" ∷ codes "5" ∷ []))

  route_steps-HasCleanup :
      (o : ClientOptions) (orig : LinuxRoute)
      → All (HasCleanup o.interface) (route_steps show itoa o orig)
  route_steps-HasCleanup o orig = (
    inl (
        reverses (codes "addr" ∷ []) (host show itoa o.address ∷ codes "dev" ∷ o.interface ∷ [])
          []),
    (
      inl (_, refl),
      (
        inl (
            reverses (codes "route" ∷ [])
              (host show itoa o.server_ip
                ∷ codes "via"
                ∷ orig.gateway
                ∷ codes "dev"
                ∷ orig.dev
                ∷ [])
              []),
        (
          inl (
              reverses (codes "route" ∷ [])
                (host show itoa o.gateway ∷ codes "dev" ∷ o.interface ∷ [])
                (codes "scope" ∷ codes "link" ∷ [])),
          (
            tunnel_route-HasCleanup o (codes "0.0.0.0/1"),
            (tunnel_route-HasCleanup o (codes "128.0.0.0/1"), tt),
          ),
        ),
      ),
    ),
  )

  ipv6_steps-HasCleanup :
      (o : ClientOptions) → All (HasCleanup o.interface) (ipv6_steps show itoa o)
  ipv6_steps-HasCleanup o = elim (Bool-cases o.block_ipv6) [
    | inl yes_ ↦
        rw yes_
          (ipv6_route-HasCleanup o (codes "::/1"), (ipv6_route-HasCleanup o (codes "8000::/1"), tt))
    | inr no_ ↦ rw no_ tt
  ]

  pub client_steps-HasCleanup :
      (found : Bool) (o : ClientOptions) (orig : LinuxRoute)
      → All (HasCleanup o.interface) (client_steps show itoa found o orig)
  unfolding client_steps
  client_steps-HasCleanup found o orig =
      All-append _ (route_steps show itoa o orig) _ (route_steps-HasCleanup o orig)
        (All-append _ (ipv6_steps show itoa o) _ (ipv6_steps-HasCleanup o) (of_dns o.dns refl))
    where
      of_dns :
          (dns : List Addr)
          → o.dns ≡ dns
          → All (HasCleanup o.interface) (dns_steps show itoa found o)
      of_dns [] e = rw e tt
      of_dns (a ∷ more) e = rw e (tt, (inr (_, refl), (inr (refl, refl), tt)))
