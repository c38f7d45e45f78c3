-- ===== src/Platform/Windows/Environment.antt =====
-- internal/platform/client_windows.go: what the script reads from its environment.
use veilink.Prelude.{
  ◌≡◌, ◌∙◌, ap, refl, ℤ, Bool, true, false, List, [], ◌∷◌, ◌++◌, map, Option, none, some, Bytes,
  codes, if◌then◌else◌, Option-cases, inl, inr,
}
use mathlib.Core.List.{append-nil}
use veilink.Netip.{Addr}
use veilink.Logging.{to_lower, is_ascii}
use veilink.Platform.Linux.{ClientOptions}
use veilink.Platform.Windows.{
  split_entry, value_in, read_env, or_empty, joined, WindowsRoute, own_entries, block_entry,
  orig_entries, setup_env, cleanup_env, reads_from,
}

abbrev or_else_earlier : Option Bytes → Option Bytes → Option Bytes
or_else_earlier none earlier = earlier
or_else_earlier (some v) earlier = some v

module _ (mapped : Bytes → Bytes) where
  read_env-append :
      (name : Bytes) (xs ys : List Bytes)
      → read_env mapped name (xs ++ ys)
        ≡ or_else_earlier (read_env mapped name ys) (read_env mapped name xs)
  unfolding read_env
  read_env-append name [] ys = elim (Option-cases (read_env mapped name ys)) [
    | inl absent ↦ rw absent refl
    | inr (v, found) ↦ rw found refl
  ]
  read_env-append name (x ∷ xs) ys = elim (Option-cases (read_env mapped name ys)) [
    | inl absent ↦ rw (read_env-append name xs ys, absent) refl
    | inr (v, found) ↦ rw (read_env-append name xs ys, found) refl
  ]

  kept :
      (name v : Bytes) (xs ys : List Bytes)
      → read_env mapped name xs ≡ some v
      → read_env mapped name ys ≡ none
      → read_env mapped name (xs ++ ys) ≡ some v
  kept name v xs ys h k = read_env-append name xs ys ∙ rw (h, k) refl

  found :
      (name v : Bytes) (xs ys : List Bytes)
      → read_env mapped name ys ≡ some v
      → read_env mapped name (xs ++ ys) ≡ some v
  found name v xs ys k = read_env-append name xs ys ∙ rw k refl

  -- A name that only the entries of the options have.
  pub record IsOwn (name : Bytes) : Type 0 where
    pub no_block : read_env mapped name (codes "VEILINK_BLOCK_IPV6=1" ∷ []) ≡ none
    pub no_orig :
        (itoa : ℤ → Bytes) (orig : WindowsRoute)
        → read_env mapped name (orig_entries itoa orig) ≡ none

  no_block_entry :
      (name : Bytes) (blocks : Bool) → IsOwn name → read_env mapped name (block_entry blocks) ≡ none
  unfolding read_env
  no_block_entry name true own = own.no_block
  no_block_entry name false own = refl

  module _ (show : Addr → Bytes) (itoa : ℤ → Bytes) (environ : List Bytes) (o : ClientOptions) where
    pub setup_reads :
        (name v : Bytes)
        → IsOwn name
        → read_env mapped name (own_entries show itoa o) ≡ some v
        → reads_from mapped (setup_env show itoa environ o) name ≡ v
    setup_reads name v own h = ap or_empty (
        kept name v (environ ++ own_entries show itoa o) (block_entry o.block_ipv6)
          (found name v environ (own_entries show itoa o) h) (no_block_entry name o.block_ipv6 own))

    pub cleanup_reads :
        (orig : WindowsRoute) (name v : Bytes)
        → IsOwn name
        → read_env mapped name (own_entries show itoa o) ≡ some v
        → reads_from mapped (cleanup_env show itoa environ o orig) name ≡ v
    cleanup_reads orig name v own h = ap or_empty (
        kept name v (setup_env show itoa environ o) (orig_entries itoa orig)
          (kept name v (environ ++ own_entries show itoa o) (block_entry o.block_ipv6)
            (found name v environ (own_entries show itoa o) h)
            (no_block_entry name o.block_ipv6 own))
          (own.no_orig itoa orig))

  pub address-IsOwn : IsOwn (codes "VEILINK_ADDRESS")
  unfolding read_env value_in split_entry to_lower is_ascii
  address-IsOwn = record { no_block = refl; no_orig = λ itoa orig. refl }

  pub gateway-IsOwn : IsOwn (codes "VEILINK_GATEWAY")
  unfolding read_env value_in split_entry to_lower is_ascii
  gateway-IsOwn = record { no_block = refl; no_orig = λ itoa orig. refl }

  pub server_ip-IsOwn : IsOwn (codes "VEILINK_SERVER_IP")
  unfolding read_env value_in split_entry to_lower is_ascii
  server_ip-IsOwn = record { no_block = refl; no_orig = λ itoa orig. refl }

  pub mtu-IsOwn : IsOwn (codes "VEILINK_MTU")
  unfolding read_env value_in split_entry to_lower is_ascii
  mtu-IsOwn = record { no_block = refl; no_orig = λ itoa orig. refl }

  pub dns-IsOwn : IsOwn (codes "VEILINK_DNS")
  unfolding read_env value_in split_entry to_lower is_ascii
  dns-IsOwn = record { no_block = refl; no_orig = λ itoa orig. refl }

  -- The entries of the options, by name.
  pub record Written (show : Addr → Bytes) (itoa : ℤ → Bytes) (o : ClientOptions)
      (entries : List Bytes) : Type 0 where
    pub address : read_env mapped (codes "VEILINK_ADDRESS") entries ≡ some (show o.address)
    pub gateway : read_env mapped (codes "VEILINK_GATEWAY") entries ≡ some (show o.gateway)
    pub server_ip : read_env mapped (codes "VEILINK_SERVER_IP") entries ≡ some (show o.server_ip)
    pub mtu : read_env mapped (codes "VEILINK_MTU") entries ≡ some (itoa o.mtu)
    pub dns : read_env mapped (codes "VEILINK_DNS") entries ≡ some (joined (map show o.dns))

  pub own_entries-Written :
      (show : Addr → Bytes) (itoa : ℤ → Bytes) (o : ClientOptions)
      → Written show itoa o (own_entries show itoa o)
  unfolding read_env value_in split_entry to_lower is_ascii
  own_entries-Written show itoa o = record {
    address = refl;
    gateway = refl;
    server_ip = refl;
    mtu = refl;
    dns = refl;
  }

  pub cleanup_reads_orig :
      (show : Addr → Bytes) (itoa : ℤ → Bytes) (environ : List Bytes) (o : ClientOptions)
      (orig : WindowsRoute)
      → (reads_from mapped (cleanup_env show itoa environ o orig) (codes "VEILINK_ORIG_IF")
          ≡ itoa orig.interface_index)
        × (reads_from mapped (cleanup_env show itoa environ o orig) (codes "VEILINK_ORIG_GW")
            ≡ orig.next_hop)
  unfolding read_env value_in split_entry to_lower is_ascii
  cleanup_reads_orig show itoa environ o orig = (
    ap or_empty (
        found (codes "VEILINK_ORIG_IF") (itoa orig.interface_index) (setup_env show itoa environ o)
          (orig_entries itoa orig) refl),
    ap or_empty (
        found (codes "VEILINK_ORIG_GW") orig.next_hop (setup_env show itoa environ o)
          (orig_entries itoa orig) refl),
  )

  -- Whether the script blocks IPv6: what the options say, or else what is inherited.
  pub reads_block :
      (show : Addr → Bytes) (itoa : ℤ → Bytes) (environ : List Bytes) (o : ClientOptions)
      → reads_from mapped (setup_env show itoa environ o) (codes "VEILINK_BLOCK_IPV6") ≡ (
          if o.block_ipv6
          then codes "1"
          else reads_from mapped environ (codes "VEILINK_BLOCK_IPV6"))
  unfolding read_env value_in split_entry to_lower is_ascii
  reads_block show itoa environ o = of_block o.block_ipv6
    where
      before : List Bytes
      before = environ ++ own_entries show itoa o

      of_block :
          (b : Bool)
          → reads_from mapped (before ++ block_entry b) (codes "VEILINK_BLOCK_IPV6")
            ≡ (if b then codes "1" else reads_from mapped environ (codes "VEILINK_BLOCK_IPV6"))
      of_block true =
          ap or_empty
            (found (codes "VEILINK_BLOCK_IPV6") (codes "1") before (block_entry true) refl)
      of_block false =
          ap (λ e. reads_from mapped e (codes "VEILINK_BLOCK_IPV6")) (append-nil before)
          ∙ ap or_empty
              (read_env-append (codes "VEILINK_BLOCK_IPV6") environ (own_entries show itoa o))
