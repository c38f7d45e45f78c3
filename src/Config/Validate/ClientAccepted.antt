-- ===== src/Config/Validate/ClientAccepted.antt =====
-- internal/config/config.go: what `Validate` holds a client's configuration to.
use veilink.Prelude.{
  ◌↔◌, ◌≡◌, ◌≢◌, ◌*◌, refl, arith, true, false, Option, none, some, List, [], ◌∷◌, All, AllEmpty,
  concat-eq-nil, Bytes, codes, bytes_eq_iff, ok, Result-cases, Option-cases, inl, inr,
  append-eq-nil,
}
use veilink.Netip.{Addr, is_4}
use veilink.Auth
use veilink.Config.Validate.Shapes.{
  IsNoFolder, ends_in_slash_exact, IsInterfaceName, valid_interface_name_exact, AtLeast,
  not_below_exact, differ, unreported, joined_empty,
}
use veilink.Auth.Tokens.{IsToken, validate_exact}
use veilink.Config.{ClientConfig, Readers, Url, second}
use veilink.Config.Validate.{
  bad_mtu, validate_client, client_reports, is_err, bad_server_url, check_dns, bad_url, bad_token,
  bad_interface, bad_dns, short_timeouts,
}
use veilink.Config.Validate.Clients.{report-nil}
use veilink.Config.Validate.Accepted.{InRange, validate_client-mtu, InRange-accepted}

module _ (r : Readers) where
  -- An address of a tunnel: a WebSocket over TLS, at a path that is neither empty nor a folder.
  pub record IsTunnelUrl (u : Url) : Type 0 where
    pub secure : u.scheme ≡ codes "wss"
    pub hosted : u.host ≢ codes ""
    pub anonymous : u.has_user ≡ false
    pub no_query : u.raw_query ≡ codes ""
    pub no_fragment : u.fragment ≡ codes ""
    pub path_there : u.path ≢ codes ""
    pub no_folder : IsNoFolder u.path

  abbrev pub IsIpv4 : Bytes → Type 0
  IsIpv4 s = (a : Addr) × (r.parse_addr s ≡ some a) × (is_4 a ≡ true)

  pub record IsUsable (c : ClientConfig) : Type 0 where
    pub url : Url
    pub url_parsed : r.parse_url c.server_url ≡ some url
    pub url_shape : IsTunnelUrl url
    pub token_valid : IsToken c.token
    pub mtu_range : InRange r c.mtu 576 1500
    pub interface_valid : IsInterfaceName c.interface
    pub dials_long : AtLeast c.dial_timeout second
    pub pings_late : AtLeast c.keep_alive (5 * second)
    pub waits_long : AtLeast c.reconnect second
    pub resolvers : All IsIpv4 c.dns

  url_accepted :
      (o : Option Url) → bad_server_url r o ≡ false → (u : Url) × (o ≡ some u) × IsTunnelUrl u
  unfolding bad_server_url
  url_accepted none e = absurd (ground (arith, e))
  url_accepted (some u) e = (
    u,
    refl,
    record {
      secure = ground (arith, bytes_eq_iff u.scheme (codes "wss"));
      hosted = ground (arith, bytes_eq_iff u.host (codes ""));
      anonymous = ground arith;
      no_query = ground (arith, bytes_eq_iff u.raw_query (codes ""));
      no_fragment = ground (arith, bytes_eq_iff u.fragment (codes ""));
      path_there = ground (arith, bytes_eq_iff u.path (codes ""));
      no_folder = (ends_in_slash_exact u.path).0 (ground arith);
    },
  )

  url_reported : (u : Url) → IsTunnelUrl u → bad_server_url r (some u) ≡ false
  unfolding bad_server_url
  url_reported u h = ground (
    arith,
    (bytes_eq_iff u.scheme (codes "wss")).1 h.secure,
    (differ u.host (codes "")).1 h.hosted,
    h.anonymous,
    (bytes_eq_iff u.raw_query (codes "")).1 h.no_query,
    (bytes_eq_iff u.fragment (codes "")).1 h.no_fragment,
    (differ u.path (codes "")).1 h.path_there,
    (differ u.path (codes "/")).1 (h.no_folder []),
    (ends_in_slash_exact u.path).1 h.no_folder,
  )

  dns_accepted : (ss : List Bytes) → check_dns r ss ≡ [] → All IsIpv4 ss
  unfolding check_dns
  dns_accepted [] e = tt
  dns_accepted (s ∷ ss) e =
      let (now, later) = append-eq-nil _ (check_dns r ss) e in
      let good = report-nil _ (bad_dns s) now in
      elim (Option-cases (r.parse_addr s)) [
        | inl missing ↦ absurd (ground (arith, missing, good))
        | inr (a, parsed) ↦ ((a, parsed, ground (arith, parsed, good)), dns_accepted ss later)
      ]

  dns_unreported : (ss : List Bytes) → All IsIpv4 ss → check_dns r ss ≡ []
  unfolding check_dns
  dns_unreported [] h = refl
  dns_unreported (s ∷ ss) ((a, parsed, four), h) = rw parsed (rw four (dns_unreported ss h))

  token_accepted : (t : Bytes) → is_err (Auth.validate t) ≡ false → Auth.validate t ≡ ok tt
  token_accepted t e = elim (Result-cases (Auth.validate t)) [
    | inl (done, valid) ↦ valid
    | inr bad ↦ absurd (ground (arith, bad))
  ]

  -- Validate finds nothing wrong with a client's configuration if and only if its URL is one of a
  -- WebSocket over TLS with a host and a path that is not empty and does not end in a slash, and
  -- with no user, query or fragment; its token is the prefix and a Base64 text of 32 bytes, its MTU
  -- 576 to 1500, its interface name 1 to 64 letters, digits, points, underscores, dashes and
  -- spaces, its dial time-out and reconnect wait a second or more, its keep-alive five or more, and
  -- its DNS servers IPv4 addresses.
  pub validate_client_exact : (c : ClientConfig) → (validate_client r c ≡ []) ↔ IsUsable c
  unfolding validate_client
  validate_client_exact c = (
    (λ e.
        let t : AllEmpty (client_reports r c) = concat-eq-nil (client_reports r c) e in
        let (u, parsed, shape) =
          url_accepted (r.parse_url c.server_url) (report-nil _ bad_url t.0) in
        let times = report-nil _ short_timeouts t.1.1.1.1.0 in
        record {
          url = u;
          url_parsed = parsed;
          url_shape = shape;
          token_valid =
              (validate_exact c.token).0 (token_accepted c.token (report-nil _ bad_token t.1.0));
          mtu_range = validate_client-mtu r c e;
          interface_valid =
              (valid_interface_name_exact c.interface).0
                (ground (arith, report-nil _ bad_interface t.1.1.1.0));
          dials_long = (not_below_exact c.dial_timeout second).0 (ground (arith, times));
          pings_late = (not_below_exact c.keep_alive (5 * second)).0 (ground (arith, times));
          waits_long = (not_below_exact c.reconnect second).0 (ground (arith, times));
          resolvers = dns_accepted c.dns t.1.1.1.1.1.0;
        }),
    (λ h. joined_empty (client_reports r c) (
      unreported _ bad_url (rw (h.url_parsed) (url_reported h.url h.url_shape)),
      (
        unreported _ bad_token (rw ((validate_exact c.token).1 h.token_valid) refl),
        (
          unreported _ bad_mtu (InRange-accepted r c.mtu 576 1500 h.mtu_range),
          (
            unreported _ bad_interface
                (rw ((valid_interface_name_exact c.interface).1 h.interface_valid) refl),
            (
              unreported _ short_timeouts (
                  ground (
                    arith,
                    (not_below_exact c.dial_timeout second).1 h.dials_long,
                    (not_below_exact c.keep_alive (5 * second)).1 h.pings_late,
                    (not_below_exact c.reconnect second).1 h.waits_long,
                  )),
              (dns_unreported c.dns h.resolvers, tt),
            ),
          ),
        ),
      ),
    )),
  )

  pub validate_client-IsUsable : (c : ClientConfig) → validate_client r c ≡ [] → IsUsable c
  validate_client-IsUsable c e = (validate_client_exact c).0 e
