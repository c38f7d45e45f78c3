-- ===== src/Command/Serving.antt =====
-- cmd/veilink/main.go: `runServer` gives back what it takes.
use veilink.Prelude.{
  ◌≡◌, ◌+◌, ◌≤◌, refl, arith, inl, inr, ℕ, List, [], ◌∷◌, Option, none, some, Bytes, Result-cases,
  Bool-cases, if◌then◌else◌, tally, tally-append,
}
use veilink.Config.{ServerConfig}
use veilink.Config.Load.{load_server}
use veilink.Logging.{new_logger}
use veilink.Server.{new_server}
use veilink.Server.Pages.{new_mux}
use veilink.Server.Lifecycle.{Effect, tears_down}
use veilink.Server.Lifecycle.Balance.{
  is_opening, is_closing, is_setting_up, is_tearing_down, run_closes, run_sets_up, is_left_open,
}
use veilink.Command.{
  CommandError, refused, not_opened, not_set_up, not_made, bad_flags, bad_log, not_loaded, Machine,
  Host, ServerEnd, ran, run_server, serve_with, open_and_serve,
}

-- How many devices a return of the command leaves open.
abbrev left : ServerEnd → ℕ
left (ran o) = if is_left_open o then 1 else 0
left (refused e) = 0
left not_opened = 0
left not_set_up = 0
left not_made = 0

-- What a run of the command took and gave back.
pub record Balanced (r : List Effect × ServerEnd) : Type 0 where
  pub set_up : tally is_setting_up r.0 ≡ tally is_tearing_down r.0
  pub once : tally is_opening r.0 ≤ 1
  pub closed : tally is_closing r.0 + left r.1 ≡ tally is_opening r.0

serve_with-tallies :
    (m : Machine) (h : Host) (c : ServerConfig)
    → (tally is_opening (serve_with m h c).0 ≡ 0)
      × (tally is_setting_up (serve_with m h c).0 ≡ 0)
      × (tally is_tearing_down (serve_with m h c).0 ≡ 0)
      × (tally is_closing (serve_with m h c).0 + left (serve_with m h c).1 ≡ 1)
serve_with-tallies m h c = elim (Result-cases (new_server m.readers h.capacity c)) [
  | inl (s, e) ↦
      let mux = new_mux h.parses c.tunnel_path in
      let (a, b, d) = run_sets_up mux h.system in
      rw (e, serve_with) (a, b, d, ground (arith, run_closes mux h.system))
  | inr (inl (x, e)) ↦ rw (e, serve_with) (refl, refl, refl, refl)
  | inr (inr e) ↦ rw (e, serve_with) (refl, refl, refl, refl)
]

-- Nothing was taken.
refused-Balanced : (e : CommandError) → Balanced ([], refused e)
refused-Balanced e = record { set_up = refl; once = omega arith; closed = refl }

open_and_serve-Balanced :
    (m : Machine) (h : Host) (c : ServerConfig) → Balanced (open_and_serve m h c)
open_and_serve-Balanced m h c = elim (Bool-cases h.opened) [
  | inr closed ↦ rw closed (record { set_up = refl; once = omega arith; closed = refl })
  | inl opened ↦ elim (Bool-cases h.set_up) [
    | inr failed ↦ rw (opened, failed) (record { set_up = refl; once = omega arith; closed = refl })
    | inl ready ↦
        let (a, b, d, closes_one) = serve_with-tallies m h c in
        let r = serve_with m h c in
        rw (opened, ready)
          (record {
            set_up = omega (
              arith,
              tally-append is_setting_up r.0 (tears_down ∷ []),
              tally-append is_tearing_down r.0 (tears_down ∷ []),
            );
            once = omega (arith, tally-append is_opening r.0 (tears_down ∷ []));
            closed = omega (
              arith,
              closes_one,
              tally-append is_opening r.0 (tears_down ∷ []),
              tally-append is_closing r.0 (tears_down ∷ []),
            );
          })
  ]
]

-- Whatever the files, the device, the platform and the listeners do, runServer takes down the
-- platform as often as it sets it up, opens the device at most once and closes it as often, but for
-- the returns of Run that leave it open: a panic of the mux, and an error that counts as none.
pub run_server-Balanced :
    (m : Machine) (h : Host) (path : Option Bytes) → Balanced (run_server m h path)
unfolding run_server
run_server-Balanced m h none = refused-Balanced bad_flags
run_server-Balanced m h (some path) =
    elim (Result-cases (load_server m.readers m.windows (m.server_file path))) [
      | inl (c, l) ↦ elim (Result-cases (new_logger m.mapped c.log)) [
        | inl (g, e) ↦ rw (l, run_server) (rw (e, run_server) (open_and_serve-Balanced m h c))
        | inr (inl (x, e)) ↦ rw (l, run_server) (rw (e, run_server) (refused-Balanced bad_log))
        | inr (inr e) ↦ rw (l, run_server) (rw (e, run_server) (refused-Balanced bad_log))
      ]
      | inr (inl (x, l)) ↦ rw (l, run_server) (refused-Balanced not_loaded)
      | inr (inr l) ↦ rw (l, run_server) (refused-Balanced not_loaded)
    ]
