-- ===== src/Client/Run/Termination.antt =====
-- internal/client/client.go: `Run` returns once its context is cancelled.
use veilink.Prelude.{
  Bool, not, if◌then◌else◌, ◌≡◌, refl, arith, List, [], ◌∷◌, ◌++◌, none, some, true, false, Option,
  ap,
}
use veilink.Config.{ClientConfig, Readers}
use veilink.Client.Run.{
  Attempt, Tunnel, Ending, Params, wait, first_session, settle, parse_ipv4, is_changed, round,
  run_loop, run, start, close_down, cancelled, open_failed, no_name, setup_failed, changed,
  invalid_address, invalid_gateway,
}

-- A round or a loop that ends with the tunnel in some way.
abbrev Ends : Tunnel × Option Ending → Type 0
Ends s = (e : Ending) × (s.1 ≡ some e)

wait-Ends : (a : Attempt) → a.stopped ≡ true → (e : Ending) × (wait a ≡ some e)
wait-Ends a stopped = (cancelled, rw stopped refl)

elim-Ends :
    {A : Type 0} (o : Option A) (n : Tunnel × Option Ending) (f : A → Tunnel × Option Ending)
    → Ends n
    → ((x : A) → Ends (f x))
    → Ends (elim o [ none ↦ n | some x ↦ f x ])
elim-Ends none n f at_none at_some = at_none
elim-Ends (some x) n f at_none at_some = at_some x

if-Ends : (b : Bool) (x y : Tunnel × Option Ending) → Ends x → Ends y → Ends (if b then x else y)
if-Ends true x y at_true at_false = at_true
if-Ends false x y at_true at_false = at_false

first_session-Ends :
    (a : Attempt) (p : Params) (t : Tunnel) → a.stopped ≡ true → Ends (first_session a p t)
unfolding first_session
first_session-Ends a p t stopped =
    if-Ends (not a.opened) _ _ (open_failed, refl)
      (if-Ends (not a.named) _ _ (no_name, refl)
        (if-Ends (not a.is_set_up) _ _ (setup_failed, refl) (wait-Ends a stopped)))

settle-Ends : (a : Attempt) (p : Params) (t : Tunnel) → a.stopped ≡ true → Ends (settle a p t)
unfolding settle
settle-Ends a p t stopped =
    elim-Ends t.params _ _ (first_session-Ends a p t stopped)
      (λ q. if-Ends (is_changed p q) _ _ (changed, refl) (wait-Ends a stopped))

round-Ends :
    (r : Readers) (c : ClientConfig) (a : Attempt) (t : Tunnel)
    → a.stopped ≡ true
    → Ends (round r c a t)
unfolding round
round-Ends r c a t stopped = elim-Ends a.welcome _ _ (wait-Ends a stopped) (λ w.
    elim-Ends (parse_ipv4 r w.address) _ _ (invalid_address, refl)
      (λ x.
        elim-Ends (parse_ipv4 r w.gateway) _ _ (invalid_gateway, refl)
          (λ g. settle-Ends a _ _ stopped)))

abbrev then_more : Tunnel × Option Ending → Tunnel × Option Ending → Tunnel × Option Ending
then_more s more = elim s.1 [ none ↦ more | some e ↦ s ]

over :
    (s more less : Tunnel × Option Ending)
    → Ends s
    → Ends (then_more s more) × (then_more s more ≡ then_more s less)
over (t, none) more less (e, ends) = absurd (ground arith)
over (t, some x) more less ends = (ends, refl)

onward :
    (s more less : Tunnel × Option Ending)
    → Ends more × (more ≡ less)
    → Ends (then_more s more) × (then_more s more ≡ then_more s less)
onward (t, none) more less h = h
onward (t, some x) more less h = ((x, refl), refl)

run_loop-Ends :
    (r : Readers) (c : ClientConfig) (before : List Attempt) (a : Attempt) (after : List Attempt)
    (t : Tunnel)
    → a.stopped ≡ true
    → Ends (run_loop r c (before ++ a ∷ after) t)
      × (run_loop r c (before ++ a ∷ after) t ≡ run_loop r c (before ++ a ∷ []) t)
unfolding run_loop
run_loop-Ends r c [] a after t stopped = over (round r c a t) _ _ (round-Ends r c a t stopped)
run_loop-Ends r c (b ∷ before) a after t stopped =
    onward (round r c b t) _ _ (run_loop-Ends r c before a after (round r c b t).0 stopped)

abbrev closed : Tunnel × Option Ending → Tunnel × Option Ending
closed s = elim s.1 [ none ↦ s | some e ↦ (close_down s.0, s.1) ]

closed-Ends : (s : Tunnel × Option Ending) → Ends s → Ends (closed s)
closed-Ends (t, none) (e, ends) = (e, ends)
closed-Ends (t, some x) (e, ends) = (e, ends)

-- If the context is cancelled in some round of Run, Run returns in that round or before, and what
-- it does and returns is the same whatever later rounds would have met.
pub run_returns :
    (r : Readers) (c : ClientConfig) (before : List Attempt) (a : Attempt) (after : List Attempt)
    → a.stopped ≡ true
    → Ends (run r c (before ++ a ∷ after))
      × (run r c (before ++ a ∷ after) ≡ run r c (before ++ a ∷ []))
unfolding run
run_returns r c before a after stopped =
    let (ends, same) = run_loop-Ends r c before a after start stopped in
    (closed-Ends (run_loop r c (before ++ a ∷ after) start) ends, ap closed same)
