-- ===== src/Config/Validate/Accepted.antt =====
-- internal/config/config.go: what a configuration that `Validate` accepts is known to be.
use veilink.Prelude.{
  ◌*◌, ◌↔◌, bytes_eq, AllEmpty, ◌==◌, ℕ, ◌≤◌, ◌≡◌, refl, ◌≢◌, false, some, List, [], arith, length,
  Bytes, codes, All, AllPairs, concat-eq-nil, ℤ, pos, negsuc,
}
use veilink.Config.Validate.Subnet.{
  IsNetwork, IsInside, IsNetwork-accepted, accepted-IsNetwork, gateway_accepted, gateway_unreported,
  valid_network,
}
use veilink.Config.Validate.Listen.{IsLocal, validate_listen_exact}
use veilink.Config.Validate.Shapes.{
  IsTunnelPath, bad_path_exact, IsInterfaceName, valid_interface_name_exact, AtLeast,
  not_below_exact, unreported, joined_empty,
}
use veilink.Netip.{Addr, Prefix}
use veilink.Config.{second, ClientConfig, ServerConfig, ServerClient, Readers}
use veilink.Config.Validate.{
  ◌∷◌, bad_listen, bad_metrics_listen, bad_interface, short_timeouts, client_reports,
  validate_client, server_reports, out_of_range, bad_tunnel_path, bad_network, bad_gateway, bad_mtu,
  bad_max_clients, no_clients, or_invalid, or_no_prefix, bad_path, validate_server,
}
use veilink.Config.Validate.Clients.{report-nil, IsClient, AreApart, check_clients_exact}

module _ (r : Readers) where
  pub record InRange (n : ℤ) (low high : ℕ) : Type 0 where
    pub value : ℕ
    pub shape : n ≡ pos value
    pub lower : low ≤ value
    pub upper : value ≤ high

  in_range : (n : ℤ) (low high : ℕ) → out_of_range n low high ≡ false → InRange n low high
  in_range (pos n) low high e = record {
    value = n;
    shape = refl;
    lower = ground arith;
    upper = ground arith;
  }
  in_range (negsuc n) low high e = absurd (ground arith)

  pub InRange-accepted :
      (n : ℤ) (low high : ℕ) → InRange n low high → out_of_range n low high ≡ false
  InRange-accepted n low high h = rw (h.shape) (ground (arith, h.lower, h.upper))

  pub record IsServable (c : ServerConfig) : Type 0 where
    pub network : Prefix
    pub gateway : Addr
    pub network_parsed : r.parse_prefix c.network ≡ some network
    pub network_shape : IsNetwork r network
    pub gateway_parsed : r.parse_addr c.gateway ≡ some gateway
    pub gateway_inside : IsInside r network network_shape gateway
    pub mtu_range : InRange c.mtu 576 1500
    pub capacity : InRange c.max_clients 1 65535
    pub local_only : IsLocal r c.listen × IsLocal r c.metrics_listen
    pub path_plain : IsTunnelPath c.tunnel_path
    pub interface_valid : IsInterfaceName c.interface
    pub greets_long : AtLeast c.handshake second
    pub idles_long : AtLeast c.idle (10 * second)
    pub some_client : c.clients ≢ []
    pub served : All (IsClient r network gateway) c.clients
    pub apart : AllPairs (AreApart r) c.clients

  nonempty : (cs : List ServerClient) → (length cs == 0) ≡ false → cs ≢ []
  nonempty cs e = ground arith

  not_alone : (cs : List ServerClient) → cs ≢ [] → (length cs == 0) ≡ false
  not_alone [] h = absurd (h refl)
  not_alone (c ∷ cs) h = ground arith

  pub validate_server-IsServable : (c : ServerConfig) → validate_server r c ≡ [] → IsServable c
  unfolding validate_server
  validate_server-IsServable c e =
      let t : AllEmpty (server_reports r c) = concat-eq-nil (server_reports r c) e in
      let (p, parsed, shape) =
        IsNetwork-accepted r (r.parse_prefix c.network) (report-nil _ bad_network t.1.1.1.0) in
      let p_is : or_no_prefix (r.parse_prefix c.network) ≡ p = rw parsed in
      let (g, found, inside) =
        gateway_accepted r p shape (r.parse_addr c.gateway)
          (rw p_is at (report-nil _ bad_gateway t.1.1.1.1.0)) in
      let g_is : or_invalid (r.parse_addr c.gateway) ≡ g = rw found in
      let (served, apart) =
        (check_clients_exact r p g c.clients (valid_network r p shape)).0
          (rw (p_is, g_is) at t.1.1.1.1.1.1.1.1.1.0) in
      let times = report-nil _ short_timeouts t.1.1.1.1.1.1.1.1.0 in
      record {
        network = p;
        gateway = g;
        network_parsed = parsed;
        network_shape = shape;
        gateway_parsed = found;
        gateway_inside = inside;
        mtu_range = in_range c.mtu 576 1500 (report-nil _ bad_mtu t.1.1.1.1.1.0);
        capacity = in_range c.max_clients 1 65535 (report-nil _ bad_max_clients t.1.1.1.1.1.1.1.0);
        local_only = (
          (validate_listen_exact r c.listen).0 (ground (arith, t.0)),
          (validate_listen_exact r c.metrics_listen).0 (ground (arith, t.1.0)),
        );
        path_plain = (bad_path_exact c.tunnel_path).0 (report-nil _ bad_tunnel_path t.1.1.0);
        interface_valid =
            (valid_interface_name_exact c.interface).0
              (ground (arith, report-nil _ bad_interface t.1.1.1.1.1.1.0));
        greets_long = (not_below_exact c.handshake second).0 (ground (arith, times));
        idles_long = (not_below_exact c.idle (10 * second)).0 (ground (arith, times));
        some_client = nonempty c.clients (report-nil _ no_clients t.1.1.1.1.1.1.1.1.1.1.0);
        served = served;
        apart = apart;
      }

  IsServable-validate_server : (c : ServerConfig) → IsServable c → validate_server r c ≡ []
  unfolding validate_server
  IsServable-validate_server c h =
      let p_is : or_no_prefix (r.parse_prefix c.network) ≡ h.network = rw (h.network_parsed) refl in
      let g_is : or_invalid (r.parse_addr c.gateway) ≡ h.gateway = rw (h.gateway_parsed) refl in
      joined_empty (server_reports r c) (
        unreported _ bad_listen (rw ((validate_listen_exact r c.listen).1 h.local_only.0) refl),
        (
          unreported _ bad_metrics_listen
              (rw ((validate_listen_exact r c.metrics_listen).1 h.local_only.1) refl),
          (
            unreported _ bad_tunnel_path ((bad_path_exact c.tunnel_path).1 h.path_plain),
            (
              unreported _ bad_network
                  (rw (h.network_parsed) (accepted-IsNetwork r h.network h.network_shape)),
              (
                unreported _ bad_gateway (
                    rw (p_is, h.gateway_parsed)
                      (gateway_unreported r h.network h.network_shape h.gateway h.gateway_inside)),
                (
                  unreported _ bad_mtu (InRange-accepted c.mtu 576 1500 h.mtu_range),
                  (
                    unreported _ bad_interface
                        (rw ((valid_interface_name_exact c.interface).1 h.interface_valid) refl),
                    (
                      unreported _ bad_max_clients
                          (InRange-accepted c.max_clients 1 65535 h.capacity),
                      (
                        unreported _ short_timeouts (
                            ground (
                              arith,
                              (not_below_exact c.handshake second).1 h.greets_long,
                              (not_below_exact c.idle (10 * second)).1 h.idles_long,
                            )),
                        (
                          rw (p_is, g_is)
                              ((check_clients_exact r h.network h.gateway c.clients
                                  (valid_network r h.network h.network_shape)).1
                                (h.served, h.apart)),
                          (unreported _ no_clients (not_alone c.clients h.some_client), tt),
                        ),
                      ),
                    ),
                  ),
                ),
              ),
            ),
          ),
        ),
      )

  -- `Validate` finds nothing wrong with a server configuration if and only if its network is a
  -- private IPv4 prefix of 16 to 30 bits with no bit past them, and its gateway one of the
  -- network's addresses; both listeners have a port and are at `localhost`, in 127.0.0.0/8 or at
  -- ::1; the path is below the root, no folder, neither /healthz nor /readyz, and has no byte of
  -- `?` and `#`; the MTU is 576 to 1500, the limit on clients 1 to 65535, the interface name 1 to
  -- 64 letters, digits, points, underscores, dashes and spaces, the handshake a second or more and
  -- the idle time ten or more; and there are clients, each with a name, an inner address and a
  -- digest, no two with the same name, address or digest.
  pub validate_server_exact : (c : ServerConfig) → (validate_server r c ≡ []) ↔ IsServable c
  validate_server_exact c = (validate_server-IsServable c, IsServable-validate_server c)

  pub validate_client-mtu : (c : ClientConfig) → validate_client r c ≡ [] → InRange c.mtu 576 1500
  unfolding validate_client
  validate_client-mtu c e =
      let t : AllEmpty (client_reports r c) = concat-eq-nil (client_reports r c) e in
      in_range c.mtu 576 1500 (report-nil _ bad_mtu t.1.1.0)

-- A path that passes is none of the pages that the server has besides.
pub bad_path_not :
    (p : Bytes)
    → bad_path p ≡ false
    → (bytes_eq p (codes "/") ≡ false)
      × (bytes_eq p (codes "/healthz") ≡ false)
      × (bytes_eq p (codes "/readyz") ≡ false)
unfolding bad_path
bad_path_not p e = (ground arith, ground arith, ground arith)
