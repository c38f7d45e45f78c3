-- ===== src/Platform/Linux.antt =====
-- internal/platform/client_linux.go: `SetupClient` and `SetupServer`, as lists of the steps that they
-- take in this order, run by one function that stops at the first step that fails.
pub mod Transaction
pub mod DefaultRoute
pub mod Cleanups
pub mod Dns
mod Tests
use veilink.Prelude.{
  map, ◌&&◌, ℕ, List, [], ◌∷◌, ◌++◌, Option, none, some, true, false, Bool, Bytes, codes, not, ◌||◌,
  bytes_eq, ℤ, if◌then◌else◌, reverse,
}
use veilink.Netip.{Addr}

-- The name of a program and its arguments.
pub record Command : Type 0 where
  pub name : Bytes
  pub arguments : List Bytes

-- `run` of a command with what is appended to `completed` after it, or a test in between.
pub data Step : Type 0 where
  runs : Command → Option Command → Step
  tests : Bool → Step

-- What was run, and `completed`, both the oldest first.
pub record Progress : Type 0 where
  pub ran : List Command
  pub completed : List Command

abbrev pub begin : Progress
begin = record { ran = []; completed = [] }

-- The cleanups, the last first. `runIgnoreMissing` has no error.
pub rollback : Progress → Progress
rollback s = record s { ran = s.ran ++ reverse s.completed }

abbrev pub undone : Option Command → List Command
undone none = []
undone (some c) = c ∷ []

abbrev pub after_run : Command → Progress → Progress
after_run c s = record s { ran = s.ran ++ c ∷ [] }

abbrev pub complete : Option Command → Progress → Progress
complete undo s = record s { completed = s.completed ++ undone undo }

-- `works` says whether a command succeeds after those that ran.
pub run_steps : (List Command → Command → Bool) → List Step → Progress → Progress × Bool
run_steps works [] s = (s, true)
run_steps works (tests passes ∷ steps) s =
    let rest = run_steps works steps s in if passes then rest else (rollback s, false)
run_steps works (runs c undo ∷ steps) s =
    let rest = run_steps works steps (complete undo (after_run c s)) in
    if works s.ran c then rest else (rollback (after_run c s), false)

pub record ClientOptions : Type 0 where
  pub interface : Bytes
  pub address : Addr
  pub gateway : Addr
  pub server_ip : Addr
  pub mtu : ℤ
  pub dns : List Addr
  pub block_ipv6 : Bool

pub record ServerOptions : Type 0 where
  pub interface : Bytes
  pub gateway : Addr
  pub bits : ℤ
  pub mtu : ℤ

pub record LinuxRoute : Type 0 where
  pub gateway : Bytes
  pub dev : Bytes

abbrev pub is_usable : Bytes → LinuxRoute → Bool
is_usable exclude r =
    not (bytes_eq r.dev exclude)
    && (not (bytes_eq r.dev (codes "")) && not (bytes_eq r.gateway (codes "")))

-- The loop of `linuxDefaultRoute` over what `ip` prints.
pub default_route : Bytes → List LinuxRoute → Option LinuxRoute
default_route exclude [] = none
default_route exclude (r ∷ rs) =
    let rest = default_route exclude rs in if is_usable exclude r then some r else rest

abbrev ip : List Bytes → Command
ip args = record { name = codes "ip"; arguments = args }

abbrev pub resolvectl : List Bytes → Command
resolvectl args = record { name = codes "resolvectl"; arguments = args }

-- `String` of an address and `strconv.Itoa` are parameters.
module _ (show : Addr → Bytes) (itoa : ℤ → Bytes) where
  abbrev pub host : Addr → Bytes
  host a = show a ++ codes "/32"

  abbrev pub tunnel_route : ClientOptions → Bytes → Step
  tunnel_route o prefix =
      runs
        (ip (
          codes "route"
          ∷ codes "replace"
          ∷ prefix
          ∷ codes "via"
          ∷ show o.gateway
          ∷ codes "dev"
          ∷ o.interface
          ∷ []))
        (some (
          ip (
            codes "route"
            ∷ codes "del"
            ∷ prefix
            ∷ codes "via"
            ∷ show o.gateway
            ∷ codes "dev"
            ∷ o.interface
            ∷ [])))

  abbrev pub ipv6_route : ClientOptions → Bytes → Step
  ipv6_route o prefix =
      runs
        (ip (
          codes "-6"
          ∷ codes "route"
          ∷ codes "replace"
          ∷ prefix
          ∷ codes "dev"
          ∷ o.interface
          ∷ codes "metric"
          ∷ codes "5"
          ∷ []))
        (some
          (ip (codes "-6" ∷ codes "route" ∷ codes "del" ∷ prefix ∷ codes "dev" ∷ o.interface ∷ [])))

  abbrev pub route_steps : ClientOptions → LinuxRoute → List Step
  route_steps o orig =
      runs (ip (codes "addr" ∷ codes "replace" ∷ host o.address ∷ codes "dev" ∷ o.interface ∷ []))
        (some (ip (codes "addr" ∷ codes "del" ∷ host o.address ∷ codes "dev" ∷ o.interface ∷ [])))
      ∷ runs
          (ip (
            codes "link"
            ∷ codes "set"
            ∷ codes "dev"
            ∷ o.interface
            ∷ codes "mtu"
            ∷ itoa o.mtu
            ∷ codes "up"
            ∷ []))
          none
      ∷ runs
          (ip (
            codes "route"
            ∷ codes "replace"
            ∷ host o.server_ip
            ∷ codes "via"
            ∷ orig.gateway
            ∷ codes "dev"
            ∷ orig.dev
            ∷ []))
          (some (
            ip (
              codes "route"
              ∷ codes "del"
              ∷ host o.server_ip
              ∷ codes "via"
              ∷ orig.gateway
              ∷ codes "dev"
              ∷ orig.dev
              ∷ [])))
      ∷ runs
          (ip (
            codes "route"
            ∷ codes "replace"
            ∷ host o.gateway
            ∷ codes "dev"
            ∷ o.interface
            ∷ codes "scope"
            ∷ codes "link"
            ∷ []))
          (some
            (ip (codes "route" ∷ codes "del" ∷ host o.gateway ∷ codes "dev" ∷ o.interface ∷ [])))
      ∷ tunnel_route o (codes "0.0.0.0/1")
      ∷ tunnel_route o (codes "128.0.0.0/1")
      ∷ []

  abbrev pub ipv6_steps : ClientOptions → List Step
  ipv6_steps o =
      if o.block_ipv6
      then ipv6_route o (codes "::/1") ∷ ipv6_route o (codes "8000::/1") ∷ []
      else []

  abbrev pub dns_command : ClientOptions → Command
  dns_command o = resolvectl (codes "dns" ∷ o.interface ∷ map show o.dns)

  abbrev pub domain_command : ClientOptions → Command
  domain_command o = resolvectl (codes "domain" ∷ o.interface ∷ codes "~." ∷ [])

  -- `found` is whether `LookPath` finds resolvectl.
  abbrev pub dns_steps : Bool → ClientOptions → List Step
  dns_steps found o = elim o.dns [
    | [] ↦ []
    | a ∷ rest ↦
        tests found
        ∷ runs (dns_command o) none
        ∷ runs (domain_command o) (some (resolvectl (codes "revert" ∷ o.interface ∷ [])))
        ∷ []
  ]

  pub client_steps : Bool → ClientOptions → LinuxRoute → List Step
  client_steps found o orig = route_steps o orig ++ (ipv6_steps o ++ dns_steps found o)

  -- `routes` is what `ip` prints, read as JSON, or an error.
  pub setup_client :
      (List Command → Command → Bool)
      → Bool
      → Option (List LinuxRoute)
      → ClientOptions
      → Progress × Bool
  setup_client works found none o = (begin, false)
  setup_client works found (some routes) o = elim (default_route o.interface routes) [
    | none ↦ (begin, false)
    | some orig ↦ run_steps works (client_steps found o orig) begin
  ]

  -- `forwards` is whether sysctl prints 1.
  pub server_steps : Bool → ServerOptions → List Step
  server_steps forwards o =
      runs
        (ip (
          codes "addr"
          ∷ codes "replace"
          ∷ (show o.gateway ++ (codes "/" ++ itoa o.bits))
          ∷ codes "dev"
          ∷ o.interface
          ∷ []))
        (some (
          ip (
            codes "addr"
            ∷ codes "del"
            ∷ (show o.gateway ++ (codes "/" ++ itoa o.bits))
            ∷ codes "dev"
            ∷ o.interface
            ∷ [])))
      ∷ runs
          (ip (
            codes "link"
            ∷ codes "set"
            ∷ codes "dev"
            ∷ o.interface
            ∷ codes "mtu"
            ∷ itoa o.mtu
            ∷ codes "up"
            ∷ []))
          none
      ∷ tests forwards
      ∷ []

  pub setup_server : (List Command → Command → Bool) → Bool → ServerOptions → Progress × Bool
  setup_server works forwards o = run_steps works (server_steps forwards o) begin
