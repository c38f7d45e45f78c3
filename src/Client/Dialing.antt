-- ===== src/Client/Dialing.antt =====
-- internal/client/client.go: whom the client dials, and what `Run` hands to the platform. The resolver and
-- the readers of a URL's host are arguments.
pub mod Targets
pub mod Tests
use veilink.Prelude.{
  Bool, true, false, not, ◌||◌, List, [], ◌∷◌, ◌++◌, map, Option, none, some, Bytes, codes,
  bytes_eq, if◌then◌else◌,
}
use veilink.Netip.{Addr, unmap}
use veilink.Config.{ClientConfig, Readers, Url}
use veilink.Config.Validate.{or_invalid}
use veilink.Platform.Linux.{ClientOptions}
use veilink.Server.{bearer}
use veilink.Protocol.Control.{Hello, Welcome, Json}
use veilink.Client.{Dial}
use veilink.Client.Run.{
  Params, Effect, sets_up, Tunnel, Ending, setup_failed, Attempt, attempt, run, parse_ipv4,
}

-- `Hostname`, `Port`, `LookupNetIP` for "ip4", and `strings.EqualFold`.
pub record Network : Type 0 where
  pub hostname : Url → Bytes
  pub port : Url → Bytes
  pub lookup_ip4 : Bytes → Option (List Addr)
  pub equal_fold : Bytes → Bytes → Bool

abbrev pub first_of : Option (List Addr) → Option Addr
first_of none = none
first_of (some []) = none
first_of (some (a ∷ rest)) = some (unmap a)

pub resolve_server_ipv4 : Readers → Network → Bytes → Option Addr
resolve_server_ipv4 r n raw = elim (r.parse_url raw) [
  | none ↦ none
  | some u ↦ (elim (parse_ipv4 r (n.hostname u)) [
    | some ip ↦ some ip
    | none ↦ first_of (n.lookup_ip4 (n.hostname u))
  ])
]

abbrev pub url_port : Network → Url → Bytes
url_port n u = if bytes_eq (n.port u) (codes "") then codes "443" else n.port u

-- `DialContext` for an address that the transport asks for: the address and the port that are dialed.
pub dial_context : Readers → Network → Url → Addr → Bytes → Option (Addr × Bytes)
dial_context r n u server_ip address = elim (r.split_host_port address) [
  | none ↦ none
  | some (host, requested) ↦
      if not (n.equal_fold host (n.hostname u)) || not (bytes_eq requested (url_port n u))
      then none
      else some (server_ip, url_port n u)
]

-- The headers of the request.
abbrev pub request_headers : ClientConfig → List (Bytes × Bytes)
request_headers c =
    (codes "Authorization", bearer ++ c.token) ∷ (codes "User-Agent", codes "Mozilla/5.0") ∷ []

-- What `Run` hands to `SetupClient`, for a device of this name.
pub setup_options : Readers → ClientConfig → Bytes → Params → Addr → ClientOptions
setup_options r c name p server_ip = record {
  interface = name;
  address = p.assigned;
  gateway = p.gateway;
  server_ip = server_ip;
  mtu = p.mtu;
  dns = map (λ raw. or_invalid (r.parse_addr raw)) c.dns;
  block_ipv6 = c.block_ipv6;
}

-- The calls of `SetupClient` that succeed, among what was done.
pub finished_setups : Readers → ClientConfig → Bytes → Addr → List Effect → List ClientOptions
finished_setups r c name server_ip [] = []
finished_setups r c name server_ip (sets_up p ∷ es) =
    setup_options r c name p server_ip ∷ finished_setups r c name server_ip es
finished_setups r c name server_ip (_ ∷ es) = finished_setups r c name server_ip es

-- The call that fails, for the tunnel that was opened; `Run` returns then.
pub failed_setup :
    Readers → ClientConfig → Bytes → Addr → Option Params → Option Ending → List ClientOptions
failed_setup r c name server_ip (some p) (some setup_failed) =
    setup_options r c name p server_ip ∷ []
failed_setup r c name server_ip _ _ = []

-- What `Run` handed to `SetupClient`, in order, where it got as far as this.
pub setups : Readers → ClientConfig → Bytes → Addr → Tunnel × Option Ending → List ClientOptions
setups r c name server_ip s =
    finished_setups r c name server_ip s.0.effects ++ failed_setup r c name server_ip s.0.params s.1
