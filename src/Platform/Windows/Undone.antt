-- ===== src/Platform/Windows/Undone.antt =====
-- internal/platform/client_windows.go: a set-up that fails, and one that is cleaned up, leave nothing.
use veilink.Prelude.{
  ◌≡◌, ◌∙◌, ap, sym, refl, arith, ℤ, List, [], ◌++◌, none, some, Bytes, Option-cases, inl, inr,
}
use veilink.Netip.{Addr}
use veilink.Platform.Linux.{ClientOptions}
use veilink.Platform.Windows.{
  WindowsHost, WindowsRoute, catch_block, setup_env, reads_from, run_script, setup_client,
  cleanup_commands, usable_route, try_block,
}
use veilink.Platform.Windows.Environment.{
  setup_reads, cleanup_reads, cleanup_reads_orig, own_entries-Written, address-IsOwn, gateway-IsOwn,
  server_ip-IsOwn,
}
use veilink.Platform.Windows.Standing.{standing}
use veilink.Platform.Windows.Transaction.{on_adapter, try_block-thrown, try_block-printed}

module _ (mapped : Bytes → Bytes) (show : Addr → Bytes) (itoa : ℤ → Bytes) (environ : List Bytes)
    (o : ClientOptions) where
  abbrev pub reads : Bytes → Bytes
  reads = reads_from mapped (setup_env show itoa environ o)

  -- The clean-up runs the commands of the catch block.
  cleanup_commands_lem :
      (index : ℤ) (orig : WindowsRoute)
      → cleanup_commands mapped show itoa (some index) environ o orig
        ≡ catch_block reads (itoa index) (itoa orig.interface_index) orig.next_hop
  unfolding cleanup_commands
  cleanup_commands_lem index orig =
      let w = own_entries-Written mapped show itoa o in
      let (on, hop) = cleanup_reads_orig mapped show itoa environ o orig in
      let a = cleanup_reads mapped show itoa environ o orig _ _ (address-IsOwn mapped) w.address in
      let g = cleanup_reads mapped show itoa environ o orig _ _ (gateway-IsOwn mapped) w.gateway in
      let s =
        cleanup_reads mapped show itoa environ o orig _ _ (server_ip-IsOwn mapped) w.server_ip in
      let a' = setup_reads mapped show itoa environ o _ _ (address-IsOwn mapped) w.address in
      let g' = setup_reads mapped show itoa environ o _ _ (gateway-IsOwn mapped) w.gateway in
      let s' = setup_reads mapped show itoa environ o _ _ (server_ip-IsOwn mapped) w.server_ip in
      rw (on, hop, a, g, s, a', g', s') refl

  -- On Windows, where JSON reads the printed route back, each command that works makes what it
  -- names and each removal takes away what it names, nothing that the script of a `SetupClient`
  -- which fails has made still stands: no address, no route and no DNS server, whichever command
  -- failed.
  pub failed_leaves_nothing :
      (h : WindowsHost)
      → ((r : WindowsRoute) → h.json_reads r ≡ some r)
      → (setup_client mapped show itoa h environ o).cleanup ≡ none
      → standing (setup_client mapped show itoa h environ o).ran [] ≡ []
  unfolding setup_client run_script standing
  failed_leaves_nothing h decodes e =
      on_adapter
        (λ r.
          (elim r.1 [ none ↦ none | some orig ↦ h.json_reads orig ]) ≡ none → standing r.0 [] ≡ [])
        h.adapter (λ index. usable_route index h.default_routes) (try_block itoa h.works reads)
        (λ e. refl)
        (λ index orig at e. elim (Option-cases (try_block itoa h.works reads index orig).1) [
          | inl thrown ↦ try_block-thrown itoa h.works reads index orig thrown
          | inr (r, printed) ↦ absurd (ground (arith, decodes r, rw printed at e))
        ])
        e

  -- On Windows, where JSON reads the printed route back, each command that works makes what it
  -- names and each removal takes away what it names, nothing that a `SetupClient` which succeeds
  -- has made still stands after its clean-up, if the adapter is still there: no address, no route
  -- and no DNS server.
  pub cleaned_up_leaves_nothing :
      (h : WindowsHost) (orig : WindowsRoute)
      → ((r : WindowsRoute) → h.json_reads r ≡ some r)
      → (setup_client mapped show itoa h environ o).cleanup ≡ some orig
      → standing
          ((setup_client mapped show itoa h environ o).ran
            ++ cleanup_commands mapped show itoa h.adapter environ o orig)
          []
        ≡ []
  unfolding setup_client run_script standing
  cleaned_up_leaves_nothing h orig decodes e =
      on_adapter
        (λ r.
          (elim r.1 [ none ↦ none | some orig ↦ h.json_reads orig ]) ≡ some orig
          → standing (r.0 ++ cleanup_commands mapped show itoa h.adapter environ o orig) [] ≡ [])
        h.adapter (λ index. usable_route index h.default_routes) (try_block itoa h.works reads)
        (λ e. absurd (ground (arith, e)))
        (λ index found at e. elim (Option-cases (try_block itoa h.works reads index found).1) [
          | inl thrown ↦ absurd (ground (arith, rw thrown at e))
          | inr (r, printed) ↦
              let (same, left) = try_block-printed itoa h.works reads index found r printed in
              let is : r ≡ orig = ground (arith, decodes r, rw printed at e) in
              let commands : cleanup_commands mapped show itoa h.adapter environ o orig
                  ≡ catch_block reads (itoa index) (itoa found.interface_index) found.next_hop =
                ap (λ a. cleanup_commands mapped show itoa a environ o orig) at
                ∙ cleanup_commands_lem index orig
                ∙ ap (λ f. catch_block reads (itoa index) (itoa f.interface_index) f.next_hop)
                    (sym (same ∙ is)) in
              ap (λ cs. standing ((try_block itoa h.works reads index found).0 ++ cs) []) commands
              ∙ left
        ])
        e
