-- ===== src/Server/Lifecycle.antt =====
-- internal/server/server.go: `Run`, and cmd/veilink/main.go: `runServer`, as what they do to the device,
-- the listeners and the platform, the oldest first. What the system answers is an argument.
pub mod Balance
use veilink.Prelude.{
  Bool, true, false, not, List, [], ◌∷◌, ◌++◌, Result, ok, err, panic, if◌then◌else◌,
}
use veilink.Server.Pages.{Mux}

pub data Effect : Type 0 where
  opens closes sets_up tears_down reads : Effect
  announces serves_tunnel serves_metrics : Effect
  cancels_sessions shuts_tunnel shuts_metrics closes_tunnel closes_metrics : Effect

-- Why a goroutine of `Run` ends: `http.ErrServerClosed`, `context.Canceled`, or another error.
pub data LoopError : Type 0 where
  server_closed canceled other : LoopError

-- What `Run` waits for: its context, with whether the two shutdowns succeed, or an error.
pub data Ending : Type 0 where
  context_done : Bool → Bool → Ending
  loop_failed : LoopError → Ending

-- What the system answers to `Run`: whether the two listeners can be had, and what it waits for.
pub record System : Type 0 where
  pub tunnel_listens : Bool
  pub metrics_listens : Bool
  pub ending : Ending

-- How `Run` returns. `quiet` is no error, with no shutdown.
pub data Outcome : Type 0 where
  crashed listen_failed metrics_failed shut_down shutdown_failed quiet failed : Outcome

abbrev pub both : Bool → Bool → Outcome
both true true = shut_down
both true false = shutdown_failed
both false b = shutdown_failed

abbrev pub is_quiet_error : LoopError → Bool
is_quiet_error server_closed = true
is_quiet_error canceled = true
is_quiet_error other = false

pub finish : Ending → List Effect × Outcome
finish (context_done a b) =
    (cancels_sessions ∷ shuts_tunnel ∷ shuts_metrics ∷ closes ∷ [], both a b)
finish (loop_failed e) =
    if is_quiet_error e then ([], quiet) else (closes_tunnel ∷ closes_metrics ∷ closes ∷ [], failed)

-- The mux is that of `new_mux`; a pattern that it refuses panics.
pub run : Result (Unit {0}) Mux → System → List Effect × Outcome
unfolding finish
run (ok mux) s =
    if not s.tunnel_listens
    then (reads ∷ closes ∷ [], listen_failed)
    else if not s.metrics_listens
    then (reads ∷ announces ∷ serves_tunnel ∷ closes_tunnel ∷ closes ∷ [], metrics_failed)
    else (
      reads ∷ announces ∷ serves_tunnel ∷ serves_metrics ∷ (finish s.ending).0,
      (finish s.ending).1,
    )
run (err e) s = (reads ∷ [], crashed)
run panic s = (reads ∷ [], crashed)
