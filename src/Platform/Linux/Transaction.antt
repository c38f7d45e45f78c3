-- ===== src/Platform/Linux/Transaction.antt =====
-- internal/platform/client_linux.go: what a set-up that fails has done.
use veilink.Prelude.{
  subst, Option-cases, ℤ, Bytes, ◌≡◌, inl, inr, refl, sym, ◌∙◌, ap, arith, List, [], ◌∷◌, ◌++◌,
  Option, none, some, true, false, Bool, Bool-cases, reverse,
}
use mathlib.Core.List.{append_assoc, append-nil}
use veilink.Netip.{Addr}
use veilink.Platform.Linux.{
  ServerOptions, server_steps, setup_server, LinuxRoute, ClientOptions, default_route, setup_client,
  client_steps, Command, Step, runs, tests, Progress, begin, rollback, undone, after_run, complete,
  run_steps,
}

-- The commands of some steps, and what undoes them.
pub commands : List Step → List Command
commands [] = []
commands (tests b ∷ xs) = commands xs
commands (runs c undo ∷ xs) = c ∷ commands xs

unfoldable pub undos : List Step → List Command
undos [] = []
undos (tests b ∷ xs) = undos xs
undos (runs c undo ∷ xs) = undone undo ++ undos xs

-- Each step works, after what ran before it.
abbrev pub AllWork : (List Command → Command → Bool) → List Command → List Step → Type 0
AllWork works ran [] = Unit {0}
AllWork works ran (tests b ∷ xs) = (b ≡ true) × AllWork works ran xs
AllWork works ran (runs c undo ∷ xs) = (works ran c ≡ true) × AllWork works (ran ++ c ∷ []) xs

abbrev pub Fails : (List Command → Command → Bool) → List Command → Step → Type 0
Fails works ran (tests b) = b ≡ false
Fails works ran (runs c undo) = works ran c ≡ false

-- A set-up that stopped: the steps before `next` worked and were undone, the last first, and `next`
-- failed.
pub record IsUndone (works : List Command → Command → Bool) (steps : List Step) (s s' : Progress)
    : Type 0 where
  pub done : List Step
  pub next : Step
  pub rest : List Step
  pub split : steps ≡ done ++ next ∷ rest
  pub worked : AllWork works s.ran done
  pub stopped : Fails works (s.ran ++ commands done) next
  pub trace :
      s'.ran ≡ (s.ran ++ commands (done ++ next ∷ [])) ++ reverse (s.completed ++ undos done)

pub run_steps-failed :
    (works : List Command → Command → Bool) (steps : List Step) (s : Progress)
    → (run_steps works steps s).1 ≡ false
    → IsUndone works steps s (run_steps works steps s).0
unfolding run_steps commands undos rollback
run_steps-failed works [] s e = cc
run_steps-failed works (tests passes ∷ steps) s e = elim (Bool-cases passes) [
  | inl goes_on ↦
      let h = run_steps-failed works steps s (rw goes_on at e) in
      rw goes_on (record {
        done = tests true ∷ h.done;
        next = h.next;
        rest = h.rest;
        split = ap (λ xs. tests true ∷ xs) h.split;
        worked = (refl, h.worked);
        stopped = h.stopped;
        trace = h.trace;
      })
  | inr stops ↦ rw stops (record {
    done = [];
    next = tests false;
    rest = steps;
    split = refl;
    worked = tt;
    stopped = refl;
    trace = rw (append-nil s.ran, append-nil s.completed) refl;
  })
]
run_steps-failed works (runs c undo ∷ steps) s e = elim (Bool-cases (works s.ran c)) [
  | inl goes_on ↦
      let h = run_steps-failed works steps (complete undo (after_run c s)) (rw goes_on at e) in
      rw goes_on (record {
        done = runs c undo ∷ h.done;
        next = h.next;
        rest = h.rest;
        split = ap (λ xs. runs c undo ∷ xs) h.split;
        worked = (goes_on, h.worked);
        stopped =
            subst (λ ran. Fails works ran h.next) (append_assoc s.ran (c ∷ []) (commands h.done))
              h.stopped;
        trace =
            h.trace
            ∙ rw
                (
                  append_assoc s.ran (c ∷ []) (commands (h.done ++ h.next ∷ [])),
                  append_assoc s.completed (undone undo) (undos h.done),
                )
                refl;
      })
  | inr stops ↦ rw stops (record {
    done = [];
    next = runs c undo;
    rest = steps;
    split = refl;
    worked = tt;
    stopped = rw (append-nil s.ran) stops;
    trace = rw (append-nil s.completed) refl;
  })
]

-- A set-up that went through: every command was run, and the cleanup undoes all, the last first.
pub run_steps-worked :
    (works : List Command → Command → Bool) (steps : List Step) (s : Progress)
    → (run_steps works steps s).1 ≡ true
    → ((run_steps works steps s).0.ran ≡ s.ran ++ commands steps)
      × ((run_steps works steps s).0.completed ≡ s.completed ++ undos steps)
unfolding run_steps commands undos
run_steps-worked works [] s e = (sym (append-nil s.ran), sym (append-nil s.completed))
run_steps-worked works (tests passes ∷ steps) s e = elim (Bool-cases passes) [
  | inl goes_on ↦ rw goes_on (run_steps-worked works steps s (rw goes_on at e))
  | inr stops ↦ absurd (ground (arith, stops))
]
run_steps-worked works (runs c undo ∷ steps) s e = elim (Bool-cases (works s.ran c)) [
  | inl goes_on ↦
      let h = run_steps-worked works steps (complete undo (after_run c s)) (rw goes_on at e) in
      rw goes_on (
        h.0 ∙ append_assoc s.ran (c ∷ []) (commands steps),
        h.1 ∙ append_assoc s.completed (undone undo) (undos steps),
      )
  | inr stops ↦ absurd (ground (arith, stops))
]

-- The first step that fails after some that worked.
pub run_steps-stops :
    (works : List Command → Command → Bool) (done rest : List Step) (c : Command)
    (undo : Option Command) (s : Progress)
    → (run_steps works done s).1 ≡ true
    → works (run_steps works done s).0.ran c ≡ false
    → run_steps works (done ++ runs c undo ∷ rest) s
      ≡ (rollback (after_run c (run_steps works done s).0), false)
unfolding run_steps
run_steps-stops works [] rest c undo s e fails = ground (arith, fails)
run_steps-stops works (tests passes ∷ done) rest c undo s e fails = elim (Bool-cases passes) [
  | inl goes_on ↦
      rw goes_on (run_steps-stops works done rest c undo s (rw goes_on at e) (rw goes_on at fails))
  | inr stops ↦ absurd (ground (arith, stops))
]
run_steps-stops works (runs b u ∷ done) rest c undo s e fails = elim (Bool-cases (works s.ran b)) [
  | inl goes_on ↦ rw goes_on (
      run_steps-stops works done rest c undo (complete u (after_run b s)) (rw goes_on at e)
        (rw goes_on at fails))
  | inr stops ↦ absurd (ground (arith, stops))
]

module _ (show : Addr → Bytes) (itoa : ℤ → Bytes) (works : List Command → Command → Bool)
    (found : Bool) where
  -- A `SetupClient` that succeeds has run, for some default route, every command of its steps in
  -- their order, and the cleanup that it gives runs the cleanups of all of them, the last first.
  pub setup_client-worked :
      (routes : Option (List LinuxRoute)) (o : ClientOptions)
      → (setup_client show itoa works found routes o).1 ≡ true
      → (orig : LinuxRoute) × ((setup_client show itoa works found routes o).0.ran
          ≡ commands (client_steps show itoa found o orig))
        × ((rollback (setup_client show itoa works found routes o).0).ran
            ≡ commands (client_steps show itoa found o orig)
              ++ reverse (undos (client_steps show itoa found o orig)))
  unfolding setup_client rollback
  setup_client-worked none o e = cc
  setup_client-worked (some routes) o e = elim (Option-cases (default_route o.interface routes)) [
    | inl missing ↦ absurd (ground (arith, missing))
    | inr (orig, is) ↦
        let (ran, left) =
          run_steps-worked works (client_steps show itoa found o orig) begin
            (rw (is, setup_client) at e) in
        (orig, rw (is, setup_client) ran, rw (is, setup_client) (rw (ran, left) refl))
  ]

-- A `SetupServer` that fails has run the commands of its first steps and of the one that failed,
-- and then the cleanups of exactly the steps before it, the last first.
pub setup_server-IsUndone :
    (show : Addr → Bytes) (itoa : ℤ → Bytes) (works : List Command → Command → Bool)
    (forwards : Bool) (o : ServerOptions)
    → (setup_server show itoa works forwards o).1 ≡ false
    → IsUndone works
        (server_steps show itoa forwards o)
        begin
        (setup_server show itoa works forwards o).0
unfolding setup_server
setup_server-IsUndone show itoa works forwards o e =
    run_steps-failed works (server_steps show itoa forwards o) begin e
