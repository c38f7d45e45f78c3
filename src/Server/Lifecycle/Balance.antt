-- ===== src/Server/Lifecycle/Balance.antt =====
-- internal/server/server.go: what `Run` closes.
use veilink.Prelude.{
  ◌≡◌, refl, arith, Bool, true, false, ok, err, panic, Result, if◌then◌else◌, tally,
}
use veilink.Server.Pages.{Mux}
use veilink.Server.Lifecycle.{
  Effect, opens, closes, sets_up, tears_down, server_closed, canceled, other, Ending, context_done,
  loop_failed, Outcome, quiet, crashed, System, finish, run, both,
}

abbrev pub is_opening : Effect → Bool
is_opening opens = true
is_opening _ = false

abbrev pub is_closing : Effect → Bool
is_closing closes = true
is_closing _ = false

abbrev pub is_setting_up : Effect → Bool
is_setting_up sets_up = true
is_setting_up _ = false

abbrev pub is_tearing_down : Effect → Bool
is_tearing_down tears_down = true
is_tearing_down _ = false

-- The returns that leave the device open.
abbrev pub is_left_open : Outcome → Bool
is_left_open quiet = true
is_left_open crashed = true
is_left_open _ = false

both_closes : (a b : Bool) → is_left_open (both a b) ≡ false
both_closes true true = refl
both_closes true false = refl
both_closes false b = refl

finish_closes :
    (e : Ending) → tally is_closing (finish e).0 ≡ (if is_left_open (finish e).1 then 0 else 1)
unfolding finish
finish_closes (context_done a b) = rw (both_closes a b) refl
finish_closes (loop_failed server_closed) = refl
finish_closes (loop_failed canceled) = refl
finish_closes (loop_failed other) = refl

finish_sets_up :
    (e : Ending)
    → (tally is_opening (finish e).0 ≡ 0)
      × (tally is_setting_up (finish e).0 ≡ 0)
      × (tally is_tearing_down (finish e).0 ≡ 0)
unfolding finish
finish_sets_up (context_done a b) = (refl, refl, refl)
finish_sets_up (loop_failed server_closed) = (refl, refl, refl)
finish_sets_up (loop_failed canceled) = (refl, refl, refl)
finish_sets_up (loop_failed other) = (refl, refl, refl)

pub run_sets_up :
    (mux : Result (Unit {0}) Mux) (s : System)
    → (tally is_opening (run mux s).0 ≡ 0)
      × (tally is_setting_up (run mux s).0 ≡ 0)
      × (tally is_tearing_down (run mux s).0 ≡ 0)
unfolding run
run_sets_up (ok mux) s =
    let (a, b, c) = finish_sets_up s.ending in
    (ground (arith, a), ground (arith, b), ground (arith, c))
run_sets_up (err e) s = (refl, refl, refl)
run_sets_up panic s = (refl, refl, refl)

pub run_closes :
    (mux : Result (Unit {0}) Mux) (s : System)
    → tally is_closing (run mux s).0 ≡ (if is_left_open (run mux s).1 then 0 else 1)
unfolding run
run_closes (ok mux) s = ground (arith, finish_closes s.ending)
run_closes (err e) s = refl
run_closes panic s = refl
