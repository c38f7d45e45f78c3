-- ===== src/Config/Validate.antt =====
-- internal/config/config.go: `Validate` of both configurations. It gives the list of all that is
-- wrong; the configuration is accepted if that is empty.
pub mod Network
pub mod Clients
pub mod Shapes
pub mod Listen
pub mod Subnet
pub mod Accepted
pub mod ClientAccepted
pub mod Defaults
pub mod Tests
use veilink.Prelude.{
  ℤ, concat, ℕ, suc, ◌+◌, ◌-◌, ◌*◌, ◌%◌, ◌^◌, Bool, true, false, not, ◌&&◌, ◌||◌, Option, none,
  some, List, [], ◌∷◌, ◌++◌, leb, ltb, ◌==◌, if◌then◌else◌, length, replicate, Bytes, codes,
  bytes_eq, has_prefix, bit_or, pos, ltb_ℤ, Result, ok, lookup, insert, Eq, bytes_Eq,
}
use veilink.Netip.{
  Addr, invalid, v4, addr_eq, is_4, addr_Eq, Prefix, no_prefix, prefix_eq, is_valid, prefix_addr,
  bits, masked, contains, is_private, is_loopback,
}
use veilink.Auth
use veilink.Auth.{parse_hash}
use veilink.Config.{ServerConfig, ServerClient, ClientConfig, Readers, Url, second}

pub data ConfigError : Type 0 where
  bad_listen bad_metrics_listen bad_tunnel_path bad_network bad_gateway bad_mtu bad_interface
        bad_max_clients short_timeouts no_clients bad_url bad_token :
      ConfigError
  bad_client_name bad_client_address bad_client_hash : ℕ → ConfigError  -- the client's position
  bad_dns : Bytes → ConfigError

-- `if b { errs = append(errs, e) }`.
abbrev pub report : Bool → ConfigError → List ConfigError
report true e = e ∷ []
report false e = []

abbrev pub valid_char : ℕ → Bool
valid_char r =
    (leb b'a' r && leb r b'z')
    || ((leb b'A' r && leb r b'Z')
        || ((leb b'0' r && leb r b'9') || (r == b'.' || (r == b'_' || (r == b'-' || r == b' ')))))

-- A rune past ASCII is refused, and so is each of its bytes here.
pub valid_chars : Bytes → Bool
valid_chars [] = true
valid_chars (r ∷ s) = valid_char r && valid_chars s

pub valid_interface_name : Bytes → Bool
unfolding valid_chars
valid_interface_name s = if ltb (length s) 1 || ltb 64 (length s) then false else valid_chars s

-- `strings.HasSuffix(s, "/")`.
pub ends_in_slash : Bytes → Bool
ends_in_slash [] = false
ends_in_slash (c ∷ []) = c == b'/'
ends_in_slash (c ∷ d ∷ s) = ends_in_slash (d ∷ s)

-- `strings.ContainsAny(s, "?#")`.
pub has_query_or_fragment : Bytes → Bool
has_query_or_fragment [] = false
has_query_or_fragment (c ∷ s) = (c == b'?' || c == b'#') || has_query_or_fragment s

pub bad_path : Bytes → Bool
bad_path p =
    not (has_prefix p (codes "/"))
    || (bytes_eq p (codes "/")
        || (ends_in_slash p
            || (bytes_eq p (codes "/healthz")
                || (bytes_eq p (codes "/readyz") || has_query_or_fragment p))))

-- `uint32(1<<hostBits) - 1`, with its wrap-around.
abbrev host_mask : ℕ → ℕ
host_mask host_bits = (2 ^ host_bits % 2 ^ 32 + (2 ^ 32 - 1)) % 2 ^ 32

-- `As4` of an address that is not IPv4 panics, or is that of an IPv4 address mapped to IPv6.
abbrev ends : Addr → ℕ → Addr → Bool
ends (v4 first) n ip = addr_eq ip (v4 first) || addr_eq ip (v4 (bit_or first (host_mask (32 - n))))
ends _ n ip = false

-- The four bytes of an address, taken apart and put together again, are its number.
pub is_network_or_broadcast : Prefix → Addr → Bool
is_network_or_broadcast p ip =
    if not (is_valid p) || not (is_4 ip) then false else ends (prefix_addr (masked p)) (bits p) ip

abbrev pub or_invalid : Option Addr → Addr
or_invalid none = invalid
or_invalid (some a) = a

abbrev or_no_prefix : Option Prefix → Prefix
or_no_prefix none = no_prefix
or_no_prefix (some p) = p

abbrev is_none {ℓ} : {A : Type ℓ} → Option A → Bool
is_none none = true
is_none (some a) = false

-- The digest that `auth.ParseHash` leaves behind: all zero on an error.
abbrev hash_of : Result Auth.AuthError Bytes → Bytes
hash_of (ok h) = h
hash_of _ = replicate 32 0

abbrev is_err {ℓ κ} : {E : Type ℓ} {A : Type κ} → Result E A → Bool
is_err (ok a) = false
is_err _ = true

-- `seen[k]` of a map to `bool`.
abbrev seen {ℓ} : {K : Type ℓ} ⦃e : Eq K⦄ → K → List (K × Bool) → Bool
seen k m = elim (lookup k m) [ none ↦ false | some b ↦ b ]

-- `n < low || n > high`.
abbrev pub out_of_range : ℤ → ℕ → ℕ → Bool
out_of_range n low high = ltb_ℤ n (pos low) || ltb_ℤ (pos high) n

module _ (r : Readers) where
  pub validate_listen : Bytes → Bool
  validate_listen s = elim (r.split_host_port s) [
    | none ↦ false
    | some (host, port) ↦
        if bytes_eq port (codes "")
        then false
        else if bytes_eq host (codes "localhost")
        then true
        else (elim (r.parse_ip host) [ none ↦ false | some ip ↦ is_loopback ip ])
  ]

  pub bad_network_prefix : Option Prefix → Bool
  bad_network_prefix none = true
  bad_network_prefix (some p) =
      not (is_4 (prefix_addr p))
      || (not (is_private (prefix_addr p))
          || (ltb (bits p) 16 || (ltb 30 (bits p) || not (prefix_eq p (masked p)))))

  pub bad_gateway_addr : Prefix → Option Addr → Bool
  bad_gateway_addr p none = true
  bad_gateway_addr p (some g) = not (is_4 g) || (is_valid p && not (contains p g))

  pub bad_address : Prefix → Addr → List (Addr × Bool) → Option Addr → Bool
  bad_address p gateway ips none = true
  bad_address p gateway ips (some ip) =
      not (is_4 ip)
      || ((is_valid p && (not (contains p ip) || is_network_or_broadcast p ip))
          || (addr_eq ip gateway || seen ip ips))

  -- The loop over the clients; `i` is the position of the first.
  pub check_clients :
      Prefix
      → Addr
      → ℕ
      → List (Bytes × Bool)
      → List (Addr × Bool)
      → List (Bytes × Bool)
      → List ServerClient
      → List ConfigError
  check_clients p gateway i names ips hashes [] = []
  check_clients p gateway i names ips hashes (c ∷ cs) =
      let ip = r.parse_addr c.address in
      let h = parse_hash c.token_sha256 in
      report (bytes_eq c.name (codes "") || seen c.name names) (bad_client_name i)
      ++ (report (bad_address p gateway ips ip) (bad_client_address i)
          ++ (report (is_err h || seen (hash_of h) hashes) (bad_client_hash i)
              ++ check_clients p gateway (suc i) (insert c.name true names)
                  (insert (or_invalid ip) true ips) (insert (hash_of h) true hashes) cs))

  abbrev pub server_reports : ServerConfig → List (List ConfigError)
  server_reports c =
      let parsed = r.parse_prefix c.network in
      let p = or_no_prefix parsed in
      let g = r.parse_addr c.gateway in
      (report (not (validate_listen c.listen)) bad_listen
        ∷ report (not (validate_listen c.metrics_listen)) bad_metrics_listen
        ∷ report (bad_path c.tunnel_path) bad_tunnel_path
        ∷ report (bad_network_prefix parsed) bad_network
        ∷ report (bad_gateway_addr p g) bad_gateway
        ∷ report (out_of_range c.mtu 576 1500) bad_mtu
        ∷ report (not (valid_interface_name c.interface)) bad_interface
        ∷ report (out_of_range c.max_clients 1 65535) bad_max_clients
        ∷ report (ltb_ℤ c.handshake (pos second) || ltb_ℤ c.idle (pos (10 * second))) short_timeouts
        ∷ check_clients p (or_invalid g) 0 [] [] [] c.clients
        ∷ report (length c.clients == 0) no_clients
        ∷ [])

  pub validate_server : ServerConfig → List ConfigError
  validate_server c = concat (server_reports c)

  pub bad_server_url : Option Url → Bool
  bad_server_url none = true
  bad_server_url (some u) =
      not (bytes_eq u.scheme (codes "wss"))
      || (bytes_eq u.host (codes "")
          || (u.has_user
              || (not (bytes_eq u.raw_query (codes ""))
                  || (not (bytes_eq u.fragment (codes ""))
                      || (bytes_eq u.path (codes "")
                          || (bytes_eq u.path (codes "/") || ends_in_slash u.path))))))

  pub check_dns : List Bytes → List ConfigError
  check_dns [] = []
  check_dns (s ∷ ss) =
      report (elim (r.parse_addr s) [ none ↦ true | some ip ↦ not (is_4 ip) ]) (bad_dns s)
      ++ check_dns ss

  abbrev pub client_reports : ClientConfig → List (List ConfigError)
  client_reports c =
      (report (bad_server_url (r.parse_url c.server_url)) bad_url
        ∷ report (is_err (Auth.validate c.token)) bad_token
        ∷ report (out_of_range c.mtu 576 1500) bad_mtu
        ∷ report (not (valid_interface_name c.interface)) bad_interface
        ∷ report
            (ltb_ℤ c.dial_timeout (pos second)
              || (ltb_ℤ c.keep_alive (pos (5 * second)) || ltb_ℤ c.reconnect (pos second)))
            short_timeouts
        ∷ check_dns c.dns
        ∷ [])

  pub validate_client : ClientConfig → List ConfigError
  validate_client c = concat (client_reports c)
