-- ===== src/Platform/Windows/Exact.antt =====
-- internal/platform/client_windows.go: what a set-up makes of the options.
use veilink.Prelude.{
  All-map, All-append, ◌||◌, ◌≡◌, ◌≢◌, ◌∙◌, ap, sym, refl, arith, ℤ, Bool, true, false, List, [],
  ◌∷◌, ◌++◌, map, Option, none, some, All, Bytes, codes, bytes_eq, bytes_eq_iff, if◌then◌else◌,
  Bool-cases, inl, inr,
}
use mathlib.Core.List.{append_assoc, append-nil}
use veilink.Netip.{Addr}
use veilink.Platform.Linux.{ClientOptions}
use veilink.Platform.Windows.{
  Cmdlet, WindowsHost, WindowsRoute, joined, creations, removals, ipv6_routes, dns_setting,
  run_creations, run_script, setup_client, setup_env, reads_from, usable_route, try_block,
}
use veilink.Platform.Windows.Environment.{
  setup_reads, reads_block, own_entries-Written, address-IsOwn, gateway-IsOwn, server_ip-IsOwn,
  dns-IsOwn,
}
use veilink.Platform.Windows.Transaction.{Script}
use veilink.Platform.Windows.Standing.{
  Thing, address, route, dns, made_by, removed_by, spared, standing, standing-append,
  cleared-standing,
}
use veilink.Platform.Windows.Commas.{HasNoComma, split-joined, joined-ne-nil}

made_all : List Cmdlet → List Thing
made_all [] = []
made_all (c ∷ cs) = made_by c ++ made_all cs

abbrev RemovesNothing : Cmdlet → Type 0
RemovesNothing c = (t : Thing) → removed_by c t ≡ false

spared_all : (c : Cmdlet) (ts : List Thing) → RemovesNothing c → spared c ts ≡ ts
unfolding spared
spared_all c [] h = refl
spared_all c (t ∷ ts) h = rw (h t, spared_all c ts h) refl

standing-made_all :
    (cs : List Cmdlet) (ts : List Thing)
    → All RemovesNothing cs
    → standing cs ts ≡ ts ++ made_all cs
unfolding standing made_all
standing-made_all [] ts h = sym (append-nil ts)
standing-made_all (c ∷ cs) ts h =
    rw (spared_all c ts h.0)
      (standing-made_all cs (ts ++ made_by c) h.1 ∙ append_assoc ts (made_by c) (made_all cs))

run_creations_all :
    (works : List Cmdlet → Cmdlet → Bool) (ran cs : List Cmdlet)
    → ((ran : List Cmdlet) (c : Cmdlet) → works ran c ≡ true)
    → run_creations works ran cs ≡ (ran ++ cs, true)
unfolding run_creations
run_creations_all works ran [] w = ap (λ r. (r, true)) (sym (append-nil ran))
run_creations_all works ran (c ∷ cs) w = rw (w ran c) (
    run_creations_all works (ran ++ c ∷ []) cs w
    ∙ ap (λ r. (r, true)) (append_assoc ran (c ∷ []) cs))

-- The DNS servers of an interface, if there are any.
abbrev pub dns_things : Bytes → List Bytes → List Thing
dns_things on [] = []
dns_things on (s ∷ ss) = dns on (s ∷ ss) ∷ []

abbrev pub ipv6_things : Bool → Bytes → List Thing
ipv6_things blocks on =
    if blocks
    then route (codes "::/1") on (codes "::") ∷ route (codes "8000::/1") on (codes "::") ∷ []
    else []

module _ (reads : Bytes → Bytes) (tun : Bytes) where
  ipv6_routes_made :
      (blocks : Bool)
      → bytes_eq (reads (codes "VEILINK_BLOCK_IPV6")) (codes "1") ≡ blocks
      → All RemovesNothing (ipv6_routes reads tun)
        × (made_all (ipv6_routes reads tun) ≡ ipv6_things blocks tun)
  unfolding made_all
  ipv6_routes_made true e = rw e (((λ t. refl), ((λ t. refl), tt)), refl)
  ipv6_routes_made false e = rw e (tt, refl)

  dns_setting_made :
      (servers : List Bytes)
      → reads (codes "VEILINK_DNS") ≡ joined servers
      → All (λ s. (s ≢ []) × HasNoComma s) servers
      → All RemovesNothing (dns_setting reads tun)
        × (made_all (dns_setting reads tun) ≡ dns_things tun servers)
  unfolding made_all
  dns_setting_made [] e h = rw e (tt, refl)
  dns_setting_made (s ∷ ss) e h =
      let set : bytes_eq (joined (s ∷ ss)) [] ≡ false =
        ground (arith, bytes_eq_iff (joined (s ∷ ss)) [], joined-ne-nil s ss h.0.0) in
      let list = split-joined s ss (All-map _ HasNoComma (s ∷ ss) (λ x k. k.1) h) in
      rw (e, set) (((λ t. refl), tt), ap (λ l. dns tun l ∷ []) list)

made_all-append : (cs ds : List Cmdlet) → made_all (cs ++ ds) ≡ made_all cs ++ made_all ds
unfolding made_all
made_all-append [] ds = refl
made_all-append (c ∷ cs) ds =
    ap (λ l. made_by c ++ l) (made_all-append cs ds)
    ∙ sym (append_assoc (made_by c) (made_all cs) (made_all ds))

past_tests :
    (a : Option ℤ) (o : ℤ → Option WindowsRoute) (f : ℤ → WindowsRoute → Script) (index : ℤ)
    (orig : WindowsRoute)
    → a ≡ some index
    → o index ≡ some orig
    → (elim a [ none ↦ ([], none) | some i ↦ (elim (o i) [ none ↦ ([], none) | some r ↦ f i r ]) ])
      ≡ f index orig
past_tests a o f index orig e e' = rw (e, e') refl

All-mapped :
    (show : Addr → Bytes) (P : Bytes → Type 0) (xs : List Addr)
    → All (λ a. P (show a)) xs
    → All P (map show xs)
All-mapped show P [] h = tt
All-mapped show P (a ∷ xs) h = (h.0, All-mapped show P xs h.1)

module _ (mapped : Bytes → Bytes) (show : Addr → Bytes) (itoa : ℤ → Bytes) (environ : List Bytes)
    (o : ClientOptions) where
  abbrev pub blocks : Bool
  blocks =
      o.block_ipv6 || bytes_eq (reads_from mapped environ (codes "VEILINK_BLOCK_IPV6")) (codes "1")

  blocks_read :
      bytes_eq
        (reads_from mapped (setup_env show itoa environ o) (codes "VEILINK_BLOCK_IPV6"))
        (codes "1")
      ≡ blocks
  blocks_read =
      ap (λ v. bytes_eq v (codes "1")) (reads_block mapped show itoa environ o)
      ∙ (elim (Bool-cases o.block_ipv6) [ inl yes_ ↦ rw yes_ refl | inr no_ ↦ rw no_ refl ])

  -- On Windows, where the adapter is found, there is a usable default route, every command works
  -- and the texts of the DNS servers are not empty and hold no comma, what stands after
  -- `SetupClient`, whatever JSON reads of the printed route, is exactly: the address on the tunnel,
  -- the route to the server over the default route, the routes to the gateway and to both halves of
  -- IPv4 on the tunnel, the routes that block IPv6 if the option says so or the inherited
  -- environment has VEILINK_BLOCK_IPV6 as 1, and the DNS servers, if there are any, in their order.
  pub set_up_makes :
      (h : WindowsHost) (index : ℤ) (orig : WindowsRoute)
      → All (λ a. (show a ≢ []) × HasNoComma (show a)) o.dns
      → h.adapter ≡ some index
      → usable_route index h.default_routes ≡ some orig
      → ((ran : List Cmdlet) (c : Cmdlet) → h.works ran c ≡ true)
      → standing (setup_client mapped show itoa h environ o).ran []
        ≡ address (show o.address) (itoa index)
          ∷ route (show o.server_ip ++ codes "/32") (itoa orig.interface_index) orig.next_hop
          ∷ route (show o.gateway ++ codes "/32") (itoa index) (codes "0.0.0.0")
          ∷ route (codes "0.0.0.0/1") (itoa index) (codes "0.0.0.0")
          ∷ route (codes "128.0.0.0/1") (itoa index) (codes "0.0.0.0")
          ∷ (ipv6_things blocks (itoa index) ++ dns_things (itoa index) (map show o.dns))
  unfolding setup_client run_script made_all
  set_up_makes h index orig texts found usable works =
      let reads = reads_from mapped (setup_env show itoa environ o) in
      let w = own_entries-Written mapped show itoa o in
      let a = setup_reads mapped show itoa environ o _ _ (address-IsOwn mapped) w.address in
      let g = setup_reads mapped show itoa environ o _ _ (gateway-IsOwn mapped) w.gateway in
      let s = setup_reads mapped show itoa environ o _ _ (server_ip-IsOwn mapped) w.server_ip in
      let n = setup_reads mapped show itoa environ o _ _ (dns-IsOwn mapped) w.dns in
      let tun = itoa index in
      let out_if = itoa orig.interface_index in
      let before = removals reads tun out_if orig.next_hop in
      let cs = creations reads tun out_if orig.next_hop in
      let (keeps6, made6) = ipv6_routes_made reads tun blocks blocks_read in
      let (keeps_dns, made_dns) =
        dns_setting_made reads tun (map show o.dns) n
          (All-mapped show (λ s. (s ≢ []) × HasNoComma s) o.dns texts) in
      let ran : (setup_client mapped show itoa h environ o).ran ≡ before ++ cs =
        ap (λ r. r.0)
          (past_tests h.adapter (λ i. usable_route i h.default_routes)
            (try_block itoa h.works reads) index orig found usable)
        ∙ rw (run_creations_all h.works before cs works) refl in
      let keeps : All RemovesNothing cs = (
        (λ t. refl),
        (
          (λ t. refl),
          (
            (λ t. refl),
            (
              (λ t. refl),
              (
                (λ t. refl),
                (
                  (λ t. refl),
                  All-append _ (ipv6_routes reads tun) (dns_setting reads tun) keeps6 keeps_dns,
                ),
              ),
            ),
          ),
        ),
      ) in
      let rest : made_all (ipv6_routes reads tun ++ dns_setting reads tun)
          ≡ ipv6_things blocks tun ++ dns_things tun (map show o.dns) =
        made_all-append (ipv6_routes reads tun) (dns_setting reads tun)
        ∙ rw (made6, made_dns) refl in
      ap (λ l. standing l []) ran
      ∙ standing-append before cs []
      ∙ ap (standing cs)
          (cleared-standing before [] (refl, (refl, (refl, (refl, (refl, (refl, (refl, tt))))))) tt)
      ∙ standing-made_all cs [] keeps
      ∙ rw (a, s, g, rest) refl
