-- ===== src/Client/Run/Lifecycle.antt =====
-- internal/client/client.go: in what order `Run` takes and gives back what it holds.
use veilink.Prelude.{
  ◌≡◌, ◌⊎◌, inl, inr, refl, arith, ℕ, List, [], ◌∷◌, ◌++◌, none, some, true, false, ap, replicate,
  Option-cases, Bool-cases, ◌∙◌, Option, suc, zero,
}
use mathlib.Core.List.{append_assoc}
use veilink.Config.{ClientConfig, Readers}
use veilink.Client.Run.{
  Params, Effect, opens, sets_up, reads, serves, tears_down, closes, Tunnel, start, Ending, Attempt,
  dials, is_changed, first_session, settle, parse_ipv4, round, run_loop, close_down, run,
}

-- Nothing is opened yet.
record IsUnopened (t : Tunnel) : Type 0 where
  params : t.params ≡ none
  bare : t.is_set_up ≡ false
  effects : t.effects ≡ []

-- The device is open, and its set-up failed.
record IsOpened (t : Tunnel) : Type 0 where
  with_params : Params
  params : t.params ≡ some with_params
  bare : t.is_set_up ≡ false
  effects : t.effects ≡ opens with_params ∷ []

-- The device is open and set up, with one reader, and has carried some sessions.
record IsReady (t : Tunnel) : Type 0 where
  with_params : Params
  sessions : ℕ
  params : t.params ≡ some with_params
  ready : t.is_set_up ≡ true
  effects :
      t.effects
      ≡ opens with_params
        ∷ sets_up with_params
        ∷ reads with_params
        ∷ replicate sessions (serves with_params)

abbrev Between : Tunnel → Type 0
Between t = IsUnopened t ⊎ IsReady t

-- What a round leaves: no connection, and the device as between rounds, or opened and the loop ended.
record Left (s : Tunnel × Option Ending) : Type 0 where
  hung_up : s.0.connections ≡ 0
  phase : Between s.0 ⊎ (IsOpened s.0 × ((e : Ending) × (s.1 ≡ some e)))

replicate-append : (n : ℕ) (e : Effect) → replicate n e ++ e ∷ [] ≡ replicate (suc n) e
replicate-append zero e = refl
replicate-append (suc n) e = ap (λ es. e ∷ es) (replicate-append n e)

first_session-Left :
    (a : Attempt) (p : Params) (t : Tunnel)
    → t.connections ≡ 1
    → IsUnopened t
    → Left (first_session a p t)
unfolding first_session
first_session-Left a p t one h = elim (Bool-cases a.opened) [
  | inr closed ↦ rw closed (record {
    hung_up = omega arith;
    phase = inl (inl (record { params = h.params; bare = h.bare; effects = h.effects }));
  })
  | inl opened ↦ elim (Bool-cases a.named) [
    | inr nameless ↦
        rw (opened, nameless)
          (record {
            hung_up = omega arith;
            phase = inr (
              record {
                with_params = p;
                params = refl;
                bare = h.bare;
                effects = rw (h.effects) refl;
              },
              (_, refl),
            );
          })
    | inl named ↦ elim (Bool-cases a.is_set_up) [
      | inr failed ↦
          rw (opened, named, failed)
            (record {
              hung_up = omega arith;
              phase = inr (
                record {
                  with_params = p;
                  params = refl;
                  bare = h.bare;
                  effects = rw (h.effects) refl;
                },
                (_, refl),
              );
            })
      | inl ready ↦
          rw (opened, named, ready)
            (record {
              hung_up = omega arith;
              phase = inl (
                  inr (record {
                    with_params = p;
                    sessions = 1;
                    params = refl;
                    ready = refl;
                    effects = rw (h.effects) refl;
                  }));
            })
    ]
  ]
]

settle_first :
    (a : Attempt) (p : Params) (t : Tunnel) → t.params ≡ none → settle a p t ≡ first_session a p t
unfolding settle
settle_first a p t e = ground (arith, e)

settle-Left :
    (a : Attempt) (p : Params) (t : Tunnel) → t.connections ≡ 1 → Between t → Left (settle a p t)
unfolding settle
settle-Left a p t one (inl h) = rw (settle_first a p t (h.params)) (first_session-Left a p t one h)
settle-Left a p t one (inr h) = elim (Bool-cases (is_changed p h.with_params)) [
  | inl differs ↦
      rw (h.params, differs)
        (record {
          hung_up = omega arith;
          phase = inl (
              inr (record {
                with_params = h.with_params;
                sessions = h.sessions;
                params = refl;
                ready = h.ready;
                effects = h.effects;
              }));
        })
  | inr same ↦
      rw (h.params, same)
        (record {
          hung_up = omega arith;
          phase = inl (
              inr (record {
                with_params = h.with_params;
                sessions = suc h.sessions;
                params = refl;
                ready = h.ready;
                effects = rw (h.effects) (
                    ap
                      (λ es. opens h.with_params ∷ sets_up h.with_params ∷ reads h.with_params ∷ es)
                      (replicate-append h.sessions (serves h.with_params)));
              }));
        })
]

-- The same tunnel with other connections is in the same phase.
Between-connections : (t : Tunnel) (n : ℕ) → Between t → Between (record t { connections = n })
Between-connections t n (inl h) =
    inl (record { params = h.params; bare = h.bare; effects = h.effects })
Between-connections t n (inr h) = inr (record {
  with_params = h.with_params;
  sessions = h.sessions;
  params = h.params;
  ready = h.ready;
  effects = h.effects;
})

round-Left :
    (r : Readers) (c : ClientConfig) (a : Attempt) (t : Tunnel)
    → t.connections ≡ 0
    → Between t
    → Left (round r c a t)
unfolding round
round-Left r c a t none_open h = elim (Option-cases a.welcome) [
  | inl failed ↦ rw failed (record { hung_up = none_open; phase = inl h })
  | inr (w, got) ↦ elim (Option-cases (parse_ipv4 r w.address)) [
    | inl bad ↦
        rw (got, bad, round)
          (record { hung_up = omega arith; phase = inl (Between-connections t _ h) })
    | inr (x, addressed) ↦ elim (Option-cases (parse_ipv4 r w.gateway)) [
      | inl bad ↦
          rw (got, addressed, bad, round)
            (record { hung_up = omega arith; phase = inl (Between-connections t _ h) })
      | inr (g, routed) ↦
          rw (got, addressed, routed, round)
            (settle-Left a _ (dials t) (omega arith) (Between-connections t _ h))
    ]
  ]
]

run_loop-Left :
    (r : Readers) (c : ClientConfig) (attempts : List Attempt) (t : Tunnel)
    → t.connections ≡ 0
    → Between t
    → Left (run_loop r c attempts t)
unfolding run_loop
run_loop-Left r c [] t none_open h = record { hung_up = none_open; phase = inl h }
run_loop-Left r c (a ∷ rest) t none_open h =
    let l = round-Left r c a t none_open h in
    elim (Option-cases (round r c a t).1) [
      | inr (e, ended) ↦ rw (ended, run_loop) l
      | inl goes_on ↦
          rw (goes_on, run_loop)
            (elim (l.phase) [
              | inl next ↦ run_loop-Left r c rest (round r c a t).0 (l.hung_up) next
              | inr (o, (e, ended)) ↦ absurd (ground (arith, goes_on, ended))
            ])
    ]

-- Nothing was taken, or the device was opened and closed, or it was opened, set up and read by one
-- reader, carried sessions with the parameters of its opening, was torn down and closed.
abbrev pub IsGivenBack : List Effect → Type 0
IsGivenBack es =
    (es ≡ [])
    ⊎ (((p : Params) × (es ≡ opens p ∷ closes ∷ []))
        ⊎ ((p : Params) × (n : ℕ) × (es
              ≡ opens p ∷ sets_up p ∷ reads p ∷ replicate n (serves p)
                ++ tears_down ∷ closes ∷ [])))

close_down-IsGivenBack :
    (t : Tunnel) → (Between t ⊎ IsOpened t) → IsGivenBack (close_down t).effects
unfolding close_down
close_down-IsGivenBack t (inl (inl h)) = inl (ground (arith, h.params, h.bare, h.effects))
close_down-IsGivenBack t (inl (inr h)) = inr (
    inr (
      h.with_params,
      h.sessions,
      ground (
        arith,
        h.params,
        h.ready,
        h.effects,
        append_assoc (replicate h.sessions (serves h.with_params)) (tears_down ∷ []) (closes ∷ []),
      ),
    ))
close_down-IsGivenBack t (inr h) =
    inr (inl (h.with_params, ground (arith, h.params, h.bare, h.effects)))

close_down-connections : (t : Tunnel) → (close_down t).connections ≡ t.connections
unfolding close_down
close_down-connections t = ground arith

-- When `Run` returns, no connection is open, and one of three things was done to the device:
-- nothing; it was opened and closed; or it was opened, set up and given one reader, carried
-- sessions all with the parameters that it was opened with, was torn down and then closed.
pub run-IsGivenBack :
    (r : Readers) (c : ClientConfig) (attempts : List Attempt) (e : Ending)
    → (run r c attempts).1 ≡ some e
    → ((run r c attempts).0.connections ≡ 0) × IsGivenBack (run r c attempts).0.effects
unfolding run
run-IsGivenBack r c attempts e ended =
    let l =
      run_loop-Left r c attempts start refl
        (inl (record { params = refl; bare = refl; effects = refl })) in
    let s = run_loop r c attempts start in
    elim (Option-cases s.1) [
      | inl goes_on ↦ absurd (ground (arith, goes_on))
      | inr (e', x) ↦
          rw (x, run)
            (
              close_down-connections s.0 ∙ l.hung_up,
              close_down-IsGivenBack s.0 (elim (l.phase) [ inl b ↦ inl b | inr (o, y) ↦ inr o ]),
            )
    ]
