-- ===== src/Config.antt =====
-- internal/config/config.go: the configurations. The readers of addresses, prefixes, URLs and
-- host-port pairs are parameters; a string is its bytes, a duration its nanoseconds.
pub mod Validate
pub mod Load
use veilink.Prelude.{
  ℕ, ◌*◌, Bool, Option, none, some, List, Bytes, codes, bytes_eq, if◌then◌else◌, ℤ, pos, pos_part,
  neg_part, ◌&&◌, ◌==◌,
}
use veilink.Netip.{Addr, Prefix}

pub record Log : Type 0 where
  pub level : Bytes
  pub format : Bytes

pub record ServerClient : Type 0 where
  pub name : Bytes
  pub address : Bytes
  pub token_sha256 : Bytes

pub record ServerConfig : Type 0 where
  pub listen : Bytes
  pub metrics_listen : Bytes
  pub tunnel_path : Bytes
  pub network : Bytes
  pub gateway : Bytes
  pub interface : Bytes
  pub mtu : ℤ
  pub handshake : ℤ
  pub idle : ℤ
  pub shutdown : ℤ
  pub max_clients : ℤ
  pub clients : List ServerClient
  pub log : Log

pub record ClientConfig : Type 0 where
  pub server_url : Bytes
  pub token : Bytes
  pub name : Bytes
  pub interface : Bytes
  pub mtu : ℤ
  pub dial_timeout : ℤ
  pub keep_alive : ℤ
  pub reconnect : ℤ
  pub dns : List Bytes
  pub block_ipv6 : Bool
  pub log : Log

-- What the code reads of a parsed URL.
pub record Url : Type 0 where
  pub scheme : Bytes
  pub host : Bytes
  pub has_user : Bool
  pub raw_query : Bytes
  pub fragment : Bytes
  pub path : Bytes

-- The readers of the standard library; `none` is an error.
pub record Readers : Type 0 where
  pub parse_addr : Bytes → Option Addr
  pub parse_prefix : Bytes → Option Prefix
  pub parse_ip : Bytes → Option Addr
  pub split_host_port : Bytes → Option (Bytes × Bytes)
  pub parse_url : Bytes → Option Url

abbrev pub second : ℕ
second = 1000000000

abbrev text_or : Bytes → Bytes → Bytes
text_or s d = if bytes_eq s (codes "") then d else s

abbrev number_or : ℤ → ℕ → ℤ
number_or n d = if pos_part n == 0 && neg_part n == 0 then pos d else n

abbrev log_defaults : Log → Log
log_defaults l = record {
  level = text_or l.level (codes "info");
  format = text_or l.format (codes "json");
}

pub apply_server_defaults : ServerConfig → ServerConfig
apply_server_defaults c = record c {
  listen = text_or c.listen (codes "127.0.0.1:8080");
  metrics_listen = text_or c.metrics_listen (codes "127.0.0.1:9090");
  tunnel_path = text_or c.tunnel_path (codes "/assets/v1/stream");
  network = text_or c.network (codes "10.77.0.0/24");
  gateway = text_or c.gateway (codes "10.77.0.1");
  interface = text_or c.interface (codes "veilink0");
  mtu = number_or c.mtu 1280;
  handshake = number_or c.handshake (10 * second);
  idle = number_or c.idle (90 * second);
  shutdown = number_or c.shutdown (15 * second);
  max_clients = number_or c.max_clients 256;
  log = log_defaults c.log;
}

pub apply_client_defaults : ClientConfig → ClientConfig
apply_client_defaults c = record c {
  name = text_or c.name (codes "client");
  interface = text_or c.interface (codes "veilink0");
  mtu = number_or c.mtu 1280;
  dial_timeout = number_or c.dial_timeout (15 * second);
  keep_alive = number_or c.keep_alive (25 * second);
  reconnect = number_or c.reconnect (3 * second);
  log = log_defaults c.log;
}
