-- ===== src/Config/Validate/Clients.antt =====
-- internal/config/config.go: what the loop over the clients accepts.
use veilink.Prelude.{
  append-eq-nil, ℕ, suc, ◌≡◌, refl, ◌↔◌, ◌≢◌, Bool, true, false, ◌||◌, some, List, [], ◌∷◌, arith,
  Bytes, bytes_eq, bytes_eq_iff, codes, ok, Eq, bytes_Eq, lookup, insert, lookup-insert, All,
  AllPairs, All-map, All-zip,
}
use veilink.Netip.{Addr, is_4, addr_eq_sound, addr_eq_refl, addr_Eq, Prefix, is_valid, contains}
use veilink.Auth.{parse_hash}
use veilink.Config.{ServerClient, Readers}
use veilink.Config.Validate.{
  ConfigError, report, seen, or_invalid, hash_of, is_err, bad_address, is_network_or_broadcast,
  check_clients, bad_client_name, bad_client_address, bad_client_hash,
}

pub report-nil : (b : Bool) (e : ConfigError) → report b e ≡ [] → b ≡ false
report-nil true e h = cc
report-nil false e h = refl

seen-insert {ℓ} :
    {K : Type ℓ} ⦃e : Eq K⦄ (k j : K) (m : List (K × Bool))
    → seen j (insert k true m) ≡ (e.beq k j || seen j m)
seen-insert ⦃e⦄ k j m = rw (lookup-insert k j true m, seen) (ground arith)

module _ (r : Readers) where
  abbrev pub address_of : ServerClient → Addr
  address_of c = or_invalid (r.parse_addr c.address)

  abbrev pub digest_of : ServerClient → Bytes
  digest_of c = hash_of (parse_hash c.token_sha256)

  -- A client that can be served: named, with an IPv4 address inside the prefix that is neither of its
  -- ends nor the gateway, and with a digest.
  pub record IsClient (p : Prefix) (gateway : Addr) (c : ServerClient) : Type 0 where
    pub named : c.name ≢ []
    pub parsed : r.parse_addr c.address ≡ some (address_of c)
    pub ipv4 : is_4 (address_of c) ≡ true
    pub inside : contains p (address_of c) ≡ true
    pub inner : is_network_or_broadcast p (address_of c) ≡ false
    pub not_gateway : address_of c ≢ gateway
    pub hashed : parse_hash c.token_sha256 ≡ ok (digest_of c)

  -- Nothing of one client is another's.
  pub record AreApart (c d : ServerClient) : Type 0 where
    pub names : c.name ≢ d.name
    pub addresses : address_of c ≢ address_of d
    pub digests : digest_of c ≢ digest_of d

  -- Nothing of the client was seen.
  record IsNew (names : List (Bytes × Bool)) (ips : List (Addr × Bool))
      (hashes : List (Bytes × Bool)) (c : ServerClient) : Type 0 where
    name : seen c.name names ≡ false
    address : seen (address_of c) ips ≡ false
    digest : seen (digest_of c) hashes ≡ false

  accepted-IsClient :
      (p : Prefix) (gateway : Addr) (names : List (Bytes × Bool)) (ips : List (Addr × Bool))
      (hashes : List (Bytes × Bool)) (c : ServerClient)
      → is_valid p ≡ true
      → (bytes_eq c.name (codes "") || seen c.name names) ≡ false
      → bad_address r p gateway ips (r.parse_addr c.address) ≡ false
      → (is_err (parse_hash c.token_sha256) || seen (digest_of c) hashes) ≡ false
      → IsClient p gateway c × IsNew names ips hashes c
  unfolding bad_address
  accepted-IsClient p gateway names ips hashes c v n a h =
      ground (arith, bytes_eq_iff c.name [], addr_eq_refl (address_of c))

  client_accepted :
      (p : Prefix) (gateway : Addr) (names : List (Bytes × Bool)) (ips : List (Addr × Bool))
      (hashes : List (Bytes × Bool)) (c : ServerClient)
      → is_valid p ≡ true
      → IsClient p gateway c
      → IsNew names ips hashes c
      → ((bytes_eq c.name (codes "") || seen c.name names) ≡ false)
        × (bad_address r p gateway ips (r.parse_addr c.address) ≡ false)
        × ((is_err (parse_hash c.token_sha256) || seen (digest_of c) hashes) ≡ false)
  unfolding bad_address
  client_accepted p gateway names ips hashes c v k n = (
    ground (arith, k.named, n.name, bytes_eq_iff c.name []),
    rw k.parsed (
        ground (
          arith,
          k.ipv4,
          k.inside,
          k.inner,
          k.not_gateway,
          n.address,
          addr_eq_sound (address_of c) gateway,
        )),
    rw k.hashed (n.digest),
  )

  -- What was not seen once a client was entered is apart from it and was not seen before.
  later_client :
      (names : List (Bytes × Bool)) (ips : List (Addr × Bool)) (hashes : List (Bytes × Bool))
      (c d : ServerClient)
      → IsNew
          (insert c.name true names)
          (insert (address_of c) true ips)
          (insert (digest_of c) true hashes)
          d
        ↔ (IsNew names ips hashes d × AreApart c d)
  later_client names ips hashes c d = (
    λ n. ground (
      arith,
      seen-insert c.name d.name names,
      seen-insert (address_of c) (address_of d) ips,
      seen-insert (digest_of c) (digest_of d) hashes,
      bytes_eq_iff c.name d.name,
      bytes_eq_iff (digest_of c) (digest_of d),
      addr_eq_sound (address_of c) (address_of d),
      addr_eq_refl (address_of c),
      addr_eq_refl (address_of d),
    ),
    λ n. ground (
      arith,
      seen-insert c.name d.name names,
      seen-insert (address_of c) (address_of d) ips,
      seen-insert (digest_of c) (digest_of d) hashes,
      bytes_eq_iff c.name d.name,
      bytes_eq_iff (digest_of c) (digest_of d),
      addr_eq_sound (address_of c) (address_of d),
      addr_eq_refl (address_of c),
      addr_eq_refl (address_of d),
    ),
  )

  Accepted :
      Prefix
      → Addr
      → List (Bytes × Bool)
      → List (Addr × Bool)
      → List (Bytes × Bool)
      → List ServerClient
      → Type 0
  Accepted p gateway names ips hashes cs =
      All (λ c. IsClient p gateway c × IsNew names ips hashes c) cs × AllPairs AreApart cs

  Accepted-cons :
      (p : Prefix) (gateway : Addr) (names : List (Bytes × Bool)) (ips : List (Addr × Bool))
      (hashes : List (Bytes × Bool)) (c : ServerClient) (cs : List ServerClient)
      → IsClient p gateway c × IsNew names ips hashes c
      → Accepted p gateway
          (insert c.name true names)
          (insert (address_of c) true ips)
          (insert (digest_of c) true hashes)
          cs
      → Accepted p gateway names ips hashes (c ∷ cs)
  unfolding Accepted
  Accepted-cons p gateway names ips hashes c cs h (all, pairs) = (
    (h, All-map _ _ cs (λ d k. (k.0, ((later_client names ips hashes c d).0 k.1).0)) all),
    (All-map _ _ cs (λ d k. ((later_client names ips hashes c d).0 k.1).1) all, pairs),
  )

  check_clients-Accepted :
      (p : Prefix) (gateway : Addr) (i : ℕ) (names : List (Bytes × Bool)) (ips : List (Addr × Bool))
      (hashes : List (Bytes × Bool)) (cs : List ServerClient)
      → is_valid p ≡ true
      → check_clients r p gateway i names ips hashes cs ≡ []
      → Accepted p gateway names ips hashes cs
  unfolding check_clients Accepted
  check_clients-Accepted p gateway i names ips hashes [] v e = (tt, tt)
  check_clients-Accepted p gateway i names ips hashes (c ∷ cs) v e =
      let n = append-eq-nil _ _ e in
      let a = append-eq-nil _ _ n.1 in
      let h = append-eq-nil _ _ a.1 in
      Accepted-cons p gateway names ips hashes c cs
        (accepted-IsClient p gateway names ips hashes c v (report-nil _ (bad_client_name i) n.0)
          (report-nil _ (bad_client_address i) a.0) (report-nil _ (bad_client_hash i) h.0))
        (check_clients-Accepted p gateway (suc i) (insert c.name true names)
          (insert (address_of c) true ips) (insert (digest_of c) true hashes) cs v h.1)

  Accepted-check_clients :
      (p : Prefix) (gateway : Addr) (i : ℕ) (names : List (Bytes × Bool)) (ips : List (Addr × Bool))
      (hashes : List (Bytes × Bool)) (cs : List ServerClient)
      → is_valid p ≡ true
      → Accepted p gateway names ips hashes cs
      → check_clients r p gateway i names ips hashes cs ≡ []
  unfolding check_clients Accepted
  Accepted-check_clients p gateway i names ips hashes [] v h = refl
  Accepted-check_clients p gateway i names ips hashes (c ∷ cs) v h =
      let t = client_accepted p gateway names ips hashes c v h.0.0.0 h.0.0.1 in
      rw (t.0, t.1, t.2)
        (Accepted-check_clients p gateway (suc i) (insert c.name true names)
          (insert (address_of c) true ips) (insert (digest_of c) true hashes) cs v
          (
            All-zip _ _ _ cs
                (λ d k apart. (k.0, (later_client names ips hashes c d).1 (k.1, apart))) h.0.1
                h.1.0,
            h.1.1,
          ))

  -- For a valid prefix, the loop over the clients finds nothing wrong if and only if each has a
  -- name, an IPv4 address inside the prefix that is neither of its ends nor the gateway, and a
  -- digest, and no two have the same name, address or digest.
  pub check_clients_exact :
      (p : Prefix) (gateway : Addr) (cs : List ServerClient)
      → is_valid p ≡ true
      → (check_clients r p gateway 0 [] [] [] cs ≡ [])
        ↔ (All (IsClient p gateway) cs × AllPairs AreApart cs)
  unfolding Accepted
  check_clients_exact p gateway cs v = (
    (λ e.
        let h = check_clients-Accepted p gateway 0 [] [] [] cs v e in
        (All-map _ _ cs (λ d k. k.0) h.0, h.1)),
    (λ h. Accepted-check_clients p gateway 0 [] [] [] cs v (
      All-map _ _ cs
          (λ d k. (
            k,
            record {
              name = unfold lookup in refl;
              address = unfold lookup in refl;
              digest = unfold lookup in refl;
            },
          ))
          h.0,
      h.1,
    )),
  )
