-- ===== src/Platform/Windows.antt =====
-- internal/platform/client_windows.go: `SetupClient`, with the commands of the script that it hands to
-- PowerShell. Which commands work, what the system answers and what JSON reads of the
-- script's output are arguments; the text of the script is not kept.
pub mod Environment
pub mod Standing
pub mod Transaction
pub mod Undone
pub mod Commas
pub mod Exact
mod Tests
use veilink.Prelude.{
  eq_ℤ, ℕ, Bool, true, false, not, ◌&&◌, ◌||◌, ◌==◌, List, [], ◌∷◌, ◌++◌, map, Option, none, some,
  Bytes, codes, bytes_eq, ℤ, if◌then◌else◌,
}
use veilink.Netip.{Addr}
use veilink.Logging.{to_lower}
use veilink.Platform.Linux.{ClientOptions}

-- An entry of an environment is a name, "=" and a value.
unfoldable pub split_entry : Bytes → Option (Bytes × Bytes)
split_entry [] = none
split_entry (c ∷ s) =
    let rest = split_entry s in
    if c == b'=' then some ([], s) else (elim rest [ none ↦ none | some (k, v) ↦ some (c ∷ k, v) ])

module _ (mapped : Bytes → Bytes) where
  -- Names are compared in lower case.
  unfoldable pub value_in : Bytes → Bytes → Option Bytes
  unfolding split_entry
  value_in name entry = elim (split_entry entry) [
    | none ↦ none
    | some (k, v) ↦ if bytes_eq (to_lower mapped k) (to_lower mapped name) then some v else none
  ]

  -- Of two entries with one name the later one counts.
  unfoldable pub read_env : Bytes → List Bytes → Option Bytes
  read_env name [] = none
  read_env name (e ∷ es) =
      let later = read_env name es in elim later [ none ↦ value_in name e | some v ↦ some v ]

abbrev pub or_empty : Option Bytes → Bytes
or_empty none = []
or_empty (some v) = v

-- `$env:NAME` in the script.
abbrev pub reads_from : (Bytes → Bytes) → List Bytes → Bytes → Bytes
reads_from mapped env name = or_empty (read_env mapped name env)

abbrev pub joined : List Bytes → Bytes
joined [] = []
joined (s ∷ []) = s
joined (s ∷ t ∷ rest) = s ++ (codes "," ++ joined (t ∷ rest))

-- `-split ','`.
abbrev pub add_byte : ℕ → List Bytes → List Bytes
add_byte c [] = (c ∷ []) ∷ []
add_byte c (s ∷ rest) = (c ∷ s) ∷ rest

unfoldable pub split_commas : Bytes → List Bytes
split_commas [] = [] ∷ []
split_commas (c ∷ s) = let rest = split_commas s in if c == b',' then [] ∷ rest else add_byte c rest

pub record WindowsRoute : Type 0 where
  pub interface_index : ℤ
  pub next_hop : Bytes

-- The cmdlets that change the system, with the prefix or the address first, then the interface. Their
-- fixed arguments, such as the metric of a route, are left out.
pub data Cmdlet : Type 0 where
  new_route : Bytes → Bytes → Bytes → Cmdlet
  remove_route : Bytes → Bytes → Option Bytes → Cmdlet
  new_address remove_address : Bytes → Bytes → Cmdlet
  set_mtu : Bytes → Bytes → Cmdlet
  set_dns : Bytes → List Bytes → Cmdlet
  reset_dns : Bytes → Cmdlet

abbrev pub block_entry : Bool → List Bytes
block_entry blocks = if blocks then codes "VEILINK_BLOCK_IPV6=1" ∷ [] else []

abbrev pub orig_entries : (ℤ → Bytes) → WindowsRoute → List Bytes
orig_entries itoa orig =
    (codes "VEILINK_ORIG_IF=" ++ itoa orig.interface_index)
    ∷ (codes "VEILINK_ORIG_GW=" ++ orig.next_hop)
    ∷ []

module _ (show : Addr → Bytes) (itoa : ℤ → Bytes) where
  abbrev pub own_entries : ClientOptions → List Bytes
  own_entries o =
      (codes "VEILINK_TUN=" ++ o.interface)
      ∷ (codes "VEILINK_ADDRESS=" ++ show o.address)
      ∷ (codes "VEILINK_GATEWAY=" ++ show o.gateway)
      ∷ (codes "VEILINK_SERVER_IP=" ++ show o.server_ip)
      ∷ (codes "VEILINK_MTU=" ++ itoa o.mtu)
      ∷ (codes "VEILINK_DNS=" ++ joined (map show o.dns))
      ∷ []

  -- `environ` is `os.Environ`.
  abbrev pub setup_env : List Bytes → ClientOptions → List Bytes
  setup_env environ o = (environ ++ own_entries o) ++ block_entry o.block_ipv6

  abbrev pub cleanup_env : List Bytes → ClientOptions → WindowsRoute → List Bytes
  cleanup_env environ o orig = setup_env environ o ++ orig_entries itoa orig

-- The default routes, sorted by metric: the first that is not on the tunnel and has a gateway.
abbrev pub is_usable : ℤ → WindowsRoute → Bool
is_usable tun r = not (eq_ℤ r.interface_index tun) && not (bytes_eq r.next_hop (codes "0.0.0.0"))

pub usable_route : ℤ → List WindowsRoute → Option WindowsRoute
usable_route tun [] = none
usable_route tun (r ∷ rs) =
    let rest = usable_route tun rs in if is_usable tun r then some r else rest

-- The commands of the script, over what it reads from its environment. Interfaces are the texts of
-- their indices.
module _ (reads : Bytes → Bytes) where
  abbrev pub tunnel_removals : Bytes → List Cmdlet
  tunnel_removals tun =
      remove_route (codes "0.0.0.0/1") tun none
      ∷ remove_route (codes "128.0.0.0/1") tun none
      ∷ remove_route (reads (codes "VEILINK_GATEWAY") ++ codes "/32") tun none
      ∷ remove_route (codes "::/1") tun none
      ∷ remove_route (codes "8000::/1") tun none
      ∷ remove_address (reads (codes "VEILINK_ADDRESS")) tun
      ∷ []

  abbrev pub server_removal : Bytes → Bytes → Cmdlet
  server_removal out_if out_hop =
      remove_route (reads (codes "VEILINK_SERVER_IP") ++ codes "/32") out_if (some out_hop)

  abbrev pub ipv6_routes : Bytes → List Cmdlet
  ipv6_routes tun =
      if bytes_eq (reads (codes "VEILINK_BLOCK_IPV6")) (codes "1")
      then new_route (codes "::/1") tun (codes "::")
        ∷ new_route (codes "8000::/1") tun (codes "::")
        ∷ []
      else []

  abbrev pub dns_setting : Bytes → List Cmdlet
  dns_setting tun =
      if bytes_eq (reads (codes "VEILINK_DNS")) []
      then []
      else set_dns tun (split_commas (reads (codes "VEILINK_DNS"))) ∷ []

  abbrev pub creations : Bytes → Bytes → Bytes → List Cmdlet
  creations tun out_if out_hop =
      set_mtu tun (reads (codes "VEILINK_MTU"))
      ∷ new_address (reads (codes "VEILINK_ADDRESS")) tun
      ∷ new_route (reads (codes "VEILINK_SERVER_IP") ++ codes "/32") out_if out_hop
      ∷ new_route (reads (codes "VEILINK_GATEWAY") ++ codes "/32") tun (codes "0.0.0.0")
      ∷ new_route (codes "0.0.0.0/1") tun (codes "0.0.0.0")
      ∷ new_route (codes "128.0.0.0/1") tun (codes "0.0.0.0")
      ∷ (ipv6_routes tun ++ dns_setting tun)

  abbrev pub removals : Bytes → Bytes → Bytes → List Cmdlet
  removals tun out_if out_hop = server_removal out_if out_hop ∷ tunnel_removals tun

  abbrev pub catch_block : Bytes → Bytes → Bytes → List Cmdlet
  catch_block tun out_if out_hop = removals tun out_if out_hop ++ reset_dns tun ∷ []

-- The commands under "Stop", up to the first that fails, which is counted, and whether none does.
pub run_creations : (List Cmdlet → Cmdlet → Bool) → List Cmdlet → List Cmdlet → List Cmdlet × Bool
run_creations works ran [] = (ran, true)
run_creations works ran (c ∷ cs) =
    let rest = run_creations works (ran ++ c ∷ []) cs in
    if works ran c then rest else (ran ++ c ∷ [], false)

-- What the system answers: the index of the adapter, the default routes, which commands work after
-- those that ran, and what JSON reads of the printed route.
pub record WindowsHost : Type 0 where
  pub adapter : Option ℤ
  pub default_routes : List WindowsRoute
  pub works : List Cmdlet → Cmdlet → Bool
  pub json_reads : WindowsRoute → Option WindowsRoute

-- The commands that ran, and what the clean-up is made with, if there is one.
pub record WindowsSetup : Type 0 where
  pub ran : List Cmdlet
  pub cleanup : Option WindowsRoute

module _ (itoa : ℤ → Bytes) where
  -- The part of the script past the two tests, with the index of the adapter and the default route.
  abbrev pub try_block :
      (List Cmdlet → Cmdlet → Bool)
      → (Bytes → Bytes)
      → ℤ
      → WindowsRoute
      → List Cmdlet × Option WindowsRoute
  try_block works reads index orig =
      let tun = itoa index in
      let out_if = itoa orig.interface_index in
      let r =
        run_creations works (removals reads tun out_if orig.next_hop)
          (creations reads tun out_if orig.next_hop) in
      if r.1 then (r.0, some orig) else (r.0 ++ catch_block reads tun out_if orig.next_hop, none)

  -- The commands that ran, and the route that is printed, or `none` where the script throws.
  pub run_script : WindowsHost → (Bytes → Bytes) → List Cmdlet × Option WindowsRoute
  run_script h reads = elim h.adapter [
    | none ↦ ([], none)
    | some index ↦ (elim (usable_route index h.default_routes) [
      | none ↦ ([], none)
      | some orig ↦ try_block h.works reads index orig
    ])
  ]

module _ (mapped : Bytes → Bytes) (show : Addr → Bytes) (itoa : ℤ → Bytes) where
  pub setup_client : WindowsHost → List Bytes → ClientOptions → WindowsSetup
  setup_client h environ o =
      let r = run_script itoa h (reads_from mapped (setup_env show itoa environ o)) in
      record { ran = r.0; cleanup = elim r.1 [ none ↦ none | some orig ↦ h.json_reads orig ] }

  -- What the clean-up runs; `adapter` is the index of the adapter, if it is still there.
  pub cleanup_commands : Option ℤ → List Bytes → ClientOptions → WindowsRoute → List Cmdlet
  cleanup_commands adapter environ o orig =
      let reads = reads_from mapped (cleanup_env show itoa environ o orig) in
      let out_if = reads (codes "VEILINK_ORIG_IF") in
      let out_hop = reads (codes "VEILINK_ORIG_GW") in
      server_removal reads out_if out_hop ∷ (elim adapter [
        | none ↦ []
        | some index ↦ tunnel_removals reads (itoa index) ++ reset_dns (itoa index) ∷ []
      ])
