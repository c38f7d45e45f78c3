-- ===== src/Config/Validate/Tests.antt =====
-- internal/config/config.go: a configuration of one client, with readers that know its texts.
use veilink.Prelude.{
  ◌⊎◌, ◌+◌, ◌-◌, ◌^◌, arith, ◌*◌, AllPairs, All, insert, lookup, ◌↔◌, ◌∷◌, [], refl, ◌≡◌, true,
  false, codes, some, none, if◌then◌else◌, bytes_eq, pos, bytes_Eq,
}
use veilink.Config.Validate.Network.{is_network_or_broadcast_exact}
use veilink.Netip.{clear_low, v4, prefix, addr_Eq}
use veilink.Encoding.Hex
use veilink.Config.{
  apply_client_defaults, ClientConfig, apply_server_defaults, Readers, ServerConfig, ServerClient,
  Readers, second,
}
use veilink.Auth.{parse_hash}
use veilink.Auth.Tests.{token, token_valid}
use veilink.Config.Validate.{
  validate_client, bad_server_url, check_dns, ends_in_slash, has_query_or_fragment, validate_listen,
  bad_path, bad_network_prefix, bad_gateway_addr, bad_address, validate_server, check_clients,
  is_network_or_broadcast, valid_interface_name,
}
use veilink.Config.Validate.Clients.{IsClient, AreApart, check_clients_exact}
use veilink.Config.Validate.ClientAccepted.{IsUsable, validate_client_exact}
use veilink.Config.Validate.Accepted.{IsServable, validate_server_exact}

-- 10.77.0.0/24, with its gateway at 1 and a client at 2.
abbrev pub readers : Readers
readers = record {
  parse_addr = λ s.
      if bytes_eq s (codes "10.77.0.1")
      then some (v4 172818433)
      else if bytes_eq s (codes "10.77.0.2")
      then some (v4 172818434)
      else none;
  parse_prefix =
      λ s. if bytes_eq s (codes "10.77.0.0/24") then some (prefix (v4 172818432) 24) else none;
  parse_ip = λ s. some (v4 2130706433);
  split_host_port = λ s.
      if bytes_eq s (codes "vpn.example:443")
      then some (codes "vpn.example", codes "443")
      else some (codes "127.0.0.1", codes "8080");
  parse_url = λ s. some (record {
    scheme = codes "wss";
    host = codes "vpn.example";
    has_user = false;
    raw_query = codes "";
    fragment = codes "";
    path = codes "/assets/v1/stream";
  });
}

abbrev pub client : ServerClient
client = record {
  name = codes "laptop";
  address = codes "10.77.0.2";
  token_sha256 = codes "sha256:000102030405060708090a0b0c0d0e0f000102030405060708090a0b0c0d0e0f";
}

abbrev pub config : ServerConfig
config = record {
  listen = codes "127.0.0.1:8080";
  metrics_listen = codes "127.0.0.1:9090";
  tunnel_path = codes "/assets/v1/stream";
  network = codes "10.77.0.0/24";
  gateway = codes "10.77.0.1";
  interface = codes "veilink0";
  mtu = pos 1280;
  handshake = pos (10 * second);
  idle = pos (90 * second);
  shutdown = pos (15 * second);
  max_clients = pos 256;
  clients = client ∷ [];
  log = record { level = codes "info"; format = codes "json" };
}

pub config_valid : validate_server readers config ≡ []
unfolding validate_server lookup insert validate_listen bad_path ends_in_slash has_query_or_fragment
    bad_network_prefix bad_gateway_addr valid_interface_name check_clients bad_address
    is_network_or_broadcast parse_hash Hex.decode_string
config_valid = refl

-- With a log level that there is not.
abbrev pub loud : ServerConfig
loud = record config { log = record { level = codes "loud"; format = codes "json" } }

pub loud_valid : validate_server readers loud ≡ []
unfolding validate_server lookup insert validate_listen bad_path ends_in_slash has_query_or_fragment
    bad_network_prefix bad_gateway_addr valid_interface_name check_clients bad_address
    is_network_or_broadcast parse_hash Hex.decode_string
loud_valid = refl

pub loud_kept : loud ≡ apply_server_defaults loud
unfolding apply_server_defaults
loud_kept = refl

pub path_good : bad_path config.tunnel_path ≡ false
unfolding bad_path ends_in_slash has_query_or_fragment
path_good = refl

validate_server_exact_example : (validate_server readers config ≡ []) ↔ IsServable readers config
validate_server_exact_example = validate_server_exact readers config

check_clients_exact_example :
    (check_clients readers (prefix (v4 172818432) 24) (v4 172818433) 0 [] [] [] config.clients ≡ [])
    ↔ (All (IsClient readers (prefix (v4 172818432) 24) (v4 172818433)) config.clients
        × AllPairs (AreApart readers) config.clients)
check_clients_exact_example =
    check_clients_exact readers (prefix (v4 172818432) 24) (v4 172818433) config.clients refl

-- The readers of the default texts.
abbrev default_readers : Readers
default_readers = record {
  parse_addr = readers.parse_addr;
  parse_prefix = readers.parse_prefix;
  parse_ip = readers.parse_ip;
  split_host_port = λ s.
      if bytes_eq s (codes "127.0.0.1:8080")
      then some (codes "127.0.0.1", codes "8080")
      else if bytes_eq s (codes "127.0.0.1:9090")
      then some (codes "127.0.0.1", codes "9090")
      else none;
  parse_url = readers.parse_url;
}

-- A client of the server, with a token of 32 zero bytes.
abbrev pub client_config : ClientConfig
client_config = record {
  name = codes "laptop";
  server_url = codes "wss://vpn.example/assets/v1/stream";
  token = token;
  interface = codes "veilink0";
  mtu = pos 1200;
  dial_timeout = pos (10 * second);
  keep_alive = pos (20 * second);
  reconnect = pos (2 * second);
  dns = [];
  block_ipv6 = true;
  log = record { level = codes "info"; format = codes "json" };
}

pub client_config_valid : validate_client readers client_config ≡ []
unfolding validate_client bad_server_url ends_in_slash valid_interface_name check_dns
client_config_valid = rw (token_valid, validate_client) refl

validate_client_exact_example :
    (validate_client readers client_config ≡ []) ↔ IsUsable readers client_config
validate_client_exact_example = validate_client_exact readers client_config

abbrev pub with_dns : ClientConfig
with_dns = record client_config { dns = codes "10.77.0.1" ∷ [] }

pub with_dns_valid : validate_client readers with_dns ≡ []
unfolding validate_client bad_server_url ends_in_slash valid_interface_name check_dns
with_dns_valid = rw (token_valid, validate_client) refl

pub with_dns_kept : with_dns ≡ apply_client_defaults with_dns
unfolding apply_client_defaults
with_dns_kept = refl

is_network_or_broadcast_exact_example :
    (is_network_or_broadcast (prefix (v4 172818432) 24) (v4 172818687) ≡ true)
    ↔ ((172818687 ≡ clear_low 8 172818432) ⊎ (172818687 ≡ clear_low 8 172818432 + (2 ^ 8 - 1)))
is_network_or_broadcast_exact_example =
    is_network_or_broadcast_exact 172818432 24 172818687 (omega arith)
