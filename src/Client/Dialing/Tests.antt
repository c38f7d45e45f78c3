-- ===== src/Client/Dialing/Tests.antt =====
-- internal/client/client.go: a resolver that answers with one address, mapped to IPv6.
use veilink.Prelude.{
  subst, Option, ◌≡◌, ◌*◌, ◌+◌, ◌^◌, refl, List, [], ◌∷◌, All, bytes_eq, codes, some, none, true,
  false,
}
use veilink.Netip.{Addr, v4, v6, is_4, unmap}
use veilink.Config.{Url}
use veilink.Config.Validate.Tests.{readers, with_dns}
use veilink.Client.Dialing.{Network, resolve_server_ipv4, dial_context}
use veilink.Client.Dialing.Targets.{ResolvesIpv4}

-- 1.2.3.4, as ::ffff:1.2.3.4.
abbrev pub network : Network
network = record {
  hostname = λ u. codes "vpn.example";
  port = λ u. codes "";
  lookup_ip4 = λ host. some (v6 (65535 * 2 ^ 32 + 16909060) [] ∷ []);
  equal_fold = bytes_eq;
}

abbrev or_none : Option (List Addr) → List Addr
or_none none = []
or_none (some found) = found

pub ipv4_only : ResolvesIpv4 network
ipv4_only host found e = subst (λ o. All (λ a. is_4 (unmap a) ≡ true) (or_none o)) e (refl, tt)

pub server_resolved : resolve_server_ipv4 readers network with_dns.server_url ≡ some (v4 16909060)
unfolding resolve_server_ipv4
server_resolved = refl

abbrev pub url : Url
url = record {
  scheme = codes "wss";
  host = codes "vpn.example";
  has_user = false;
  raw_query = codes "";
  fragment = codes "";
  path = codes "/assets/v1/stream";
}

pub dialed :
    dial_context readers network url (v4 16909060) (codes "vpn.example:443")
    ≡ some (v4 16909060, codes "443")
unfolding dial_context
dialed = refl
