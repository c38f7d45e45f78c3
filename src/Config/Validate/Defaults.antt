-- ===== src/Config/Validate/Defaults.antt =====
-- internal/config/config.go: what `applyServerDefaults` fills in passes `Validate`.
use veilink.Prelude.{
  ◌≡◌, ◌↔◌, refl, arith, List, [], ◌∷◌, ◌++◌, Bytes, codes, some, true, false, pos, length,
  bytes_eq, ◌==◌, append-eq-nil, ◌≢◌,
}
use veilink.Netip.{v4, prefix}
use veilink.Config.{ServerConfig, ServerClient, Readers, apply_server_defaults}
use veilink.Config.Validate.{
  validate_server, check_clients, report, no_clients, ends_in_slash, has_query_or_fragment,
  validate_listen, bad_path, bad_network_prefix, bad_gateway_addr, valid_interface_name,
}

-- A file that names nothing but clients.
abbrev pub only_clients : List ServerClient → ServerConfig
only_clients cs = record {
  listen = [];
  metrics_listen = [];
  tunnel_path = [];
  network = [];
  gateway = [];
  interface = [];
  mtu = pos 0;
  handshake = pos 0;
  idle = pos 0;
  shutdown = pos 0;
  max_clients = pos 0;
  clients = cs;
  log = record { level = []; format = [] };
}

module _ (r : Readers) where
  listens :
      (s port : Bytes)
      → bytes_eq port (codes "") ≡ false
      → r.split_host_port s ≡ some (codes "127.0.0.1", port)
      → r.parse_ip (codes "127.0.0.1") ≡ some (v4 2130706433)
      → validate_listen r s ≡ true
  unfolding validate_listen
  listens s port named splits loopback = rw (splits, validate_listen) (rw (named, loopback) refl)

  reports_of_defaults :
      (cs : List ServerClient)
      → r.parse_prefix (codes "10.77.0.0/24") ≡ some (prefix (v4 172818432) 24)
      → r.parse_addr (codes "10.77.0.1") ≡ some (v4 172818433)
      → r.split_host_port (codes "127.0.0.1:8080") ≡ some (codes "127.0.0.1", codes "8080")
      → r.split_host_port (codes "127.0.0.1:9090") ≡ some (codes "127.0.0.1", codes "9090")
      → r.parse_ip (codes "127.0.0.1") ≡ some (v4 2130706433)
      → validate_server r (apply_server_defaults (only_clients cs))
        ≡ check_clients r (prefix (v4 172818432) 24) (v4 172818433) 0 [] [] [] cs
          ++ (report (length cs == 0) no_clients ++ [])
  unfolding validate_server apply_server_defaults bad_path ends_in_slash has_query_or_fragment
      bad_network_prefix bad_gateway_addr valid_interface_name
  reports_of_defaults cs network gateway listen metrics loopback =
      rw
        (
          network,
          gateway,
          listens (codes "127.0.0.1:8080") (codes "8080") refl listen loopback,
          listens (codes "127.0.0.1:9090") (codes "9090") refl metrics loopback,
        )
        refl

  -- With readers that know the default texts, a server configuration that names nothing but
  -- clients, with the defaults filled in, is accepted if and only if it has clients and the loop
  -- over them finds nothing wrong for 10.77.0.0/24 and the gateway 10.77.0.1.
  pub defaults_accepted :
      (cs : List ServerClient)
      → r.parse_prefix (codes "10.77.0.0/24") ≡ some (prefix (v4 172818432) 24)
      → r.parse_addr (codes "10.77.0.1") ≡ some (v4 172818433)
      → r.split_host_port (codes "127.0.0.1:8080") ≡ some (codes "127.0.0.1", codes "8080")
      → r.split_host_port (codes "127.0.0.1:9090") ≡ some (codes "127.0.0.1", codes "9090")
      → r.parse_ip (codes "127.0.0.1") ≡ some (v4 2130706433)
      → (validate_server r (apply_server_defaults (only_clients cs)) ≡ []) ↔ (
          (check_clients r (prefix (v4 172818432) 24) (v4 172818433) 0 [] [] [] cs ≡ [])
          × (cs ≢ []))
  defaults_accepted cs network gateway listen metrics loopback =
      rw (reports_of_defaults cs network gateway listen metrics loopback) (accepts cs, refuses cs)
    where
      accepts :
          (cs : List ServerClient)
          → check_clients r (prefix (v4 172818432) 24) (v4 172818433) 0 [] [] [] cs
              ++ (report (length cs == 0) no_clients ++ [])
            ≡ []
          → (check_clients r (prefix (v4 172818432) 24) (v4 172818433) 0 [] [] [] cs ≡ [])
            × (cs ≢ [])
      accepts [] e = absurd (
          ground (
            arith,
            append-eq-nil (check_clients r (prefix (v4 172818432) 24) (v4 172818433) 0 [] [] [] [])
                (no_clients ∷ []) e,
          ))
      accepts (c ∷ cs) e = ((append-eq-nil _ _ e).0, (λ q. cc))

      refuses :
          (cs : List ServerClient)
          → (check_clients r (prefix (v4 172818432) 24) (v4 172818433) 0 [] [] [] cs ≡ [])
            × (cs ≢ [])
          → check_clients r (prefix (v4 172818432) 24) (v4 172818433) 0 [] [] [] cs
              ++ (report (length cs == 0) no_clients ++ [])
            ≡ []
      refuses [] (e, some_client) = absurd (some_client refl)
      refuses (c ∷ cs) (e, some_client) = rw e (ground arith)
