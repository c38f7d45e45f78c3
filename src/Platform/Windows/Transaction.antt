-- ===== src/Platform/Windows/Transaction.antt =====
-- internal/platform/client_windows.go: what a set-up leaves that fails, or that is cleaned up.
use veilink.Prelude.{
  ◌&&◌, ◌≡◌, ◌∙◌, refl, arith, ℤ, Bool, true, false, List, [], ◌∷◌, ◌++◌, Option, none, some, All,
  Bytes, codes, bytes_eq, bytes_eq_refl, if◌then◌else◌, All-append, Bool-cases, inl, inr,
}
use veilink.Platform.Windows.{
  Cmdlet, WindowsRoute, removals, catch_block, creations, run_creations, try_block, dns_setting,
  ipv6_routes,
}
use veilink.Platform.Windows.Standing.{
  Thing, made_by, standing, cleared_by, AllCleared, MakeNothing, cleared-standing,
  standing-AllCleared, standing-append,
}

-- What ran is all of some kind, if what is to run is.
run_creations-All :
    (P : Cmdlet → Type 0) (works : List Cmdlet → Cmdlet → Bool) (ran cs : List Cmdlet)
    → All P ran
    → All P cs
    → All P (run_creations works ran cs).0
unfolding run_creations
run_creations-All P works ran [] h k = h
run_creations-All P works ran (c ∷ cs) h k = elim (Bool-cases (works ran c)) [
  | inl worked ↦
      rw worked
        (run_creations-All P works (ran ++ c ∷ []) cs (All-append P ran (c ∷ []) h (k.0, tt)) k.1)
  | inr failed ↦ rw failed (All-append P ran (c ∷ []) h (k.0, tt))
]

skip : (b x : Bool) → x ≡ true → (if b then true else x) ≡ true
skip true x h = refl
skip false x h = h

hit : (b x : Bool) → b ≡ true → (if b then true else x) ≡ true
hit b x h = rw h refl

and_true : {b c : Bool} → b ≡ true → c ≡ true → (b && c) ≡ true
and_true h k = rw (h, k) refl

same_two : (a b : Bytes) → (bytes_eq a a && bytes_eq b b) ≡ true
same_two a b = and_true (bytes_eq_refl a) (bytes_eq_refl b)

module _ (reads : Bytes → Bytes) (tun out_if out_hop : Bytes) where
  abbrev catches : List Cmdlet
  catches = catch_block reads tun out_if out_hop

  catches-MakeNothing : MakeNothing catches
  catches-MakeNothing = (refl, (refl, (refl, (refl, (refl, (refl, (refl, (refl, tt))))))))

  abbrev IsCaught : Thing → Type 0
  IsCaught t = cleared_by catches t ≡ true

  ipv6_caught : All (λ c. AllCleared catches (made_by c)) (ipv6_routes reads tun)
  ipv6_caught = elim (Bool-cases (bytes_eq (reads (codes "VEILINK_BLOCK_IPV6")) (codes "1"))) [
    | inl blocks ↦
        rw blocks
          ((ground (arith, bytes_eq_refl tun), tt), ((ground (arith, bytes_eq_refl tun), tt), tt))
    | inr passes ↦ rw passes tt
  ]

  dns_caught : All (λ c. AllCleared catches (made_by c)) (dns_setting reads tun)
  dns_caught = elim (Bool-cases (bytes_eq (reads (codes "VEILINK_DNS")) [])) [
    | inl bare ↦ rw bare tt
    | inr set ↦ rw set ((rw (bytes_eq_refl tun) refl, tt), tt)
  ]

  -- The third removal of a tunnel route.
  on_tunnel :
      (second first prefix : Bytes) (a rest : Bool)
      → (if a
          then true
          else if bytes_eq first prefix && (bytes_eq tun tun && true)
          then true
          else if bytes_eq second prefix && (bytes_eq tun tun && true)
          then true
          else if bytes_eq prefix prefix && (bytes_eq tun tun && true)
          then true
          else rest)
        ≡ true
  on_tunnel second first prefix a rest = skip a _ (
      skip _ _
        (skip _ _ (hit _ _ (and_true (bytes_eq_refl prefix) (and_true (bytes_eq_refl tun) refl)))))

  creations_caught : All (λ c. AllCleared catches (made_by c)) (creations reads tun out_if out_hop)
  creations_caught = (
    tt,
    (
      (hit _ _ (same_two (reads (codes "VEILINK_ADDRESS")) tun), tt),
      (
        (
          hit _ _ (
              and_true (bytes_eq_refl (reads (codes "VEILINK_SERVER_IP") ++ codes "/32"))
                (same_two out_if out_hop)),
          tt,
        ),
        (
          (
            on_tunnel (codes "128.0.0.0/1") (codes "0.0.0.0/1")
                (reads (codes "VEILINK_GATEWAY") ++ codes "/32") _ _,
            tt,
          ),
          (
            (skip _ _ (hit _ _ (and_true (bytes_eq_refl tun) refl)), tt),
            (
              (skip _ _ (hit _ _ (and_true (bytes_eq_refl tun) refl)), tt),
              All-append _ (ipv6_routes reads tun) (dns_setting reads tun) ipv6_caught dns_caught,
            ),
          ),
        ),
      ),
    ),
  )

  -- What the commands of a set-up leave is cleared by the removals of its catch block.
  ran_AllCleared :
      (works : List Cmdlet → Cmdlet → Bool)
      → AllCleared catches (
          standing
            (run_creations works
              (removals reads tun out_if out_hop)
              (creations reads tun out_if out_hop)).0
            [])
  ran_AllCleared works =
      standing-AllCleared catches
        (run_creations works (removals reads tun out_if out_hop)
          (creations reads tun out_if out_hop)).0
        []
        (run_creations-All (λ c. AllCleared catches (made_by c)) works
          (removals reads tun out_if out_hop) (creations reads tun out_if out_hop)
          (tt, (tt, (tt, (tt, (tt, (tt, (tt, tt))))))) creations_caught)
        tt

  caught-standing :
      (works : List Cmdlet → Cmdlet → Bool)
      → standing
          ((run_creations works
              (removals reads tun out_if out_hop)
              (creations reads tun out_if out_hop)).0
            ++ catches)
          []
        ≡ []
  caught-standing works =
      let ran =
        (run_creations works (removals reads tun out_if out_hop)
          (creations reads tun out_if out_hop)).0 in
      standing-append ran catches []
      ∙ cleared-standing catches (standing ran []) catches-MakeNothing (ran_AllCleared works)

abbrev pub Script : Type 0
Script = List Cmdlet × Option WindowsRoute

-- A property of the script holds if it holds where a test fails, and past the tests.
on_route :
    (P : Script → Type 0) (o : Option WindowsRoute) (f : WindowsRoute → Script)
    → P ([], none)
    → ((orig : WindowsRoute) → P (f orig))
    → P (elim o [ none ↦ ([], none) | some orig ↦ f orig ])
on_route P none f stopped past = stopped
on_route P (some orig) f stopped past = past orig

pub on_adapter :
    (P : Script → Type 0) (a : Option ℤ) (o : ℤ → Option WindowsRoute)
    (f : ℤ → WindowsRoute → Script)
    → P ([], none)
    → ((index : ℤ) (orig : WindowsRoute) → a ≡ some index → P (f index orig))
    → P (elim a [
      | none ↦ ([], none)
      | some index ↦ (elim (o index) [ none ↦ ([], none) | some orig ↦ f index orig ])
    ])
on_adapter P none o f stopped past = stopped
on_adapter P (some index) o f stopped past =
    on_route P (o index) (f index) stopped (λ orig. past index orig refl)

module _ (itoa : ℤ → Bytes) (works : List Cmdlet → Cmdlet → Bool) (reads : Bytes → Bytes) where
  pub try_block-thrown :
      (index : ℤ) (orig : WindowsRoute)
      → (try_block itoa works reads index orig).1 ≡ none
      → standing (try_block itoa works reads index orig).0 [] ≡ []
  try_block-thrown index orig e =
      let cs = creations reads (itoa index) (itoa orig.interface_index) orig.next_hop in
      let before = removals reads (itoa index) (itoa orig.interface_index) orig.next_hop in
      elim (Bool-cases (run_creations works before cs).1) [
        | inl worked ↦ absurd (ground (arith, rw worked at e))
        | inr failed ↦
            rw failed
              (caught-standing reads (itoa index) (itoa orig.interface_index) orig.next_hop works)
      ]

  pub try_block-printed :
      (index : ℤ) (orig printed : WindowsRoute)
      → (try_block itoa works reads index orig).1 ≡ some printed
      → (orig ≡ printed)
        × (standing
              ((try_block itoa works reads index orig).0
                ++ catch_block reads (itoa index) (itoa orig.interface_index) orig.next_hop)
              []
            ≡ [])
  try_block-printed index orig printed e =
      let cs = creations reads (itoa index) (itoa orig.interface_index) orig.next_hop in
      let before = removals reads (itoa index) (itoa orig.interface_index) orig.next_hop in
      elim (Bool-cases (run_creations works before cs).1) [
        | inl worked ↦ (
          ground (arith, rw worked at e),
          rw worked
              (caught-standing reads (itoa index) (itoa orig.interface_index) orig.next_hop works),
        )
        | inr failed ↦ absurd (ground (arith, rw failed at e))
      ]
