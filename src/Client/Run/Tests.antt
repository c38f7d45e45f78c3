-- ===== src/Client/Run/Tests.antt =====
-- internal/client/client.go: a short run.
use veilink.Prelude.{Bool, ◌++◌, ◌≡◌, refl, List, [], ◌∷◌, some, none, true, false}
use veilink.Config.Validate.Tests.{readers}
use veilink.Client.Tests.{cfg, answer}
use veilink.Client.Run.Termination.{run_returns}
use veilink.Client.Run.{Ending, Attempt, run, run_loop, round, settle, first_session, cancelled}
use veilink.Client.Run.Lifecycle.{IsGivenBack, run-IsGivenBack}

-- A connection that fails.
abbrev only_dials : Bool → Attempt
only_dials stopped = record {
  welcome = none;
  opened = true;
  named = true;
  is_set_up = true;
  stopped = stopped;
  slept = true;
}

-- A session, a connection that fails, and the end.
abbrev attempts : List Attempt
attempts =
    record {
      welcome = some answer;
      opened = true;
      named = true;
      is_set_up = true;
      stopped = false;
      slept = true;
    }
    ∷ only_dials true
    ∷ []

stopped : (run readers cfg attempts).1 ≡ some cancelled
unfolding run run_loop round settle first_session
stopped = refl

run-IsGivenBack_example :
    ((run readers cfg attempts).0.connections ≡ 0)
    × IsGivenBack (run readers cfg attempts).0.effects
run-IsGivenBack_example = run-IsGivenBack readers cfg attempts cancelled stopped

-- The context is cancelled in the second of three rounds.
run_returns_example :
    ((e : Ending) × ((run readers cfg ((only_dials false ∷ []) ++ only_dials true ∷ attempts)).1
        ≡ some e))
    × (run readers cfg ((only_dials false ∷ []) ++ only_dials true ∷ attempts)
        ≡ run readers cfg ((only_dials false ∷ []) ++ only_dials true ∷ []))
run_returns_example =
    run_returns readers cfg (only_dials false ∷ []) (only_dials true) attempts refl
