-- ===== src/Client/Run/Options.antt =====
-- internal/client/client.go: what `Run` opens and sets up, whatever the servers answer.
use veilink.Prelude.{
  Bytes, subst, ℕ, ◌≡◌, refl, subst, sym, Bytes, arith, pos, ltb_ℤ, Bool, true, false, not, List,
  [], ◌∷◌, map, Option, none, some, All, All-append, if◌then◌else◌, Option-cases, inl, inr, ok, err,
  panic, Result, ◌∙◌,
}
use veilink.Netip.{Addr, is_4}
use veilink.Config.{ClientConfig, Readers}
use veilink.Config.Validate.{validate_client}
use veilink.Config.Validate.Accepted.{validate_client-mtu}
use veilink.Protocol.Control.{Hello, Welcome, Json}
use veilink.Client.{ClientError, Addr, Dial, connect}
use veilink.Client.Handshake.{connect_opens, connect-is_open}
use veilink.Client.Run.{
  Params, Effect, opens, sets_up, reads, serves, tears_down, closes, Tunnel, Ending, Attempt, start,
  does, session, first_session, settle, is_changed, parse_ipv4, round, run_loop, close_down, run,
  heard, attempt,
}

-- Parameters of a tunnel: two IPv4 addresses and an MTU of 576 to 1500.
pub record IsSafe (p : Params) : Type 0 where
  pub assigned : is_4 p.assigned ≡ true
  pub gateway : is_4 p.gateway ≡ true
  pub low : ltb_ℤ p.mtu (pos 576) ≡ false
  pub high : ltb_ℤ (pos 1500) p.mtu ≡ false

abbrev pub IsSafeEffect : Effect → Type 0
IsSafeEffect (opens p) = IsSafe p
IsSafeEffect (sets_up p) = IsSafe p
IsSafeEffect (reads p) = IsSafe p
IsSafeEffect (serves p) = IsSafe p
IsSafeEffect tears_down = Unit {0}
IsSafeEffect closes = Unit {0}

abbrev pub SafeParams : Option Params → Type 0
SafeParams none = Unit {0}
SafeParams (some p) = IsSafe p

-- A tunnel whose parameters are safe, and were in all that was done.
pub record Safe (t : Tunnel) : Type 0 where
  pub params : SafeParams t.params
  pub effects : All IsSafeEffect t.effects

abbrev SafeSession : Tunnel × Option Ending → Type 0
SafeSession s = Safe s.0

-- A welcome that `connect` lets through.
abbrev IsConsistent : Option Welcome → Type 0
IsConsistent none = Unit {0}
IsConsistent (some w) = (ltb_ℤ w.mtu (pos 576) ≡ false) × (ltb_ℤ (pos 1500) w.mtu ≡ false)

elim-Safe :
    {A : Type 0} (o : Option A) (n : Tunnel × Option Ending) (f : A → Tunnel × Option Ending)
    → SafeSession n
    → ((x : A) → o ≡ some x → SafeSession (f x))
    → SafeSession (elim o [ none ↦ n | some x ↦ f x ])
elim-Safe none n f at_none at_some = at_none
elim-Safe (some x) n f at_none at_some = at_some x refl

if-Safe :
    (b : Bool) (x y : Tunnel × Option Ending)
    → SafeSession x
    → SafeSession y
    → SafeSession (if b then x else y)
if-Safe true x y at_true at_false = at_true
if-Safe false x y at_true at_false = at_false

does-Safe : (e : Effect) (t : Tunnel) → IsSafeEffect e → Safe t → Safe (does e t)
does-Safe e t h s = record {
  params = s.params;
  effects = All-append _ t.effects (e ∷ []) s.effects (h, tt);
}

-- The connections that are open do not matter.
hung_up : (n : ℕ) (t : Tunnel) → Safe t → Safe (record t { connections = n })
hung_up n t s = record { params = s.params; effects = s.effects }

session-Safe :
    (a : Attempt) (p : Params) (t : Tunnel) → IsSafe p → Safe t → SafeSession (session a p t)
session-Safe a p t h s = hung_up _ _ (does-Safe (serves p) t h s)

first_session-Safe :
    (a : Attempt) (p : Params) (t : Tunnel) → IsSafe p → Safe t → SafeSession (first_session a p t)
unfolding first_session
first_session-Safe a p t h s =
    let with_device : Safe (does (opens p) (record t { params = some p })) =
      does-Safe (opens p) _ h (record { params = h; effects = s.effects }) in
    let with_routes =
      does-Safe (sets_up p)
        (record (does (opens p) (record t { params = some p })) { is_set_up = true }) h
        (record { params = h; effects = with_device.effects }) in
    if-Safe (not a.opened) _ _ (hung_up _ t s) (
      if-Safe (not a.named) _ _ (hung_up _ _ with_device) (
        if-Safe (not a.is_set_up) _ _ (hung_up _ _ with_device)
          (session-Safe a p _ h (does-Safe (reads p) _ h with_routes))))

settle-Safe :
    (a : Attempt) (p : Params) (t : Tunnel) → IsSafe p → Safe t → SafeSession (settle a p t)
unfolding settle
settle-Safe a p t h s = elim-Safe t.params _ _ (first_session-Safe a p t h s) (λ q e.
    if-Safe (is_changed p q) _ _ (hung_up _ t s)
      (session-Safe a q t (subst SafeParams e s.params) s))

pub parse_ipv4-is_4 : (r : Readers) (b : Bytes) {x : Addr} → parse_ipv4 r b ≡ some x → is_4 x ≡ true
parse_ipv4-is_4 r b e = elim (Option-cases (r.parse_addr b)) [
  | inl missing ↦ absurd (ground (arith, missing))
  | inr (y, parsed) ↦ ground (arith, parsed)
]

round-Safe :
    (r : Readers) (c : ClientConfig) (a : Attempt) (t : Tunnel)
    → validate_client r c ≡ []
    → IsConsistent a.welcome
    → Safe t
    → SafeSession (round r c a t)
unfolding round
round-Safe r c a t valid consistent s = elim-Safe a.welcome _ _ s (λ w e.
    let dialed = hung_up _ t s in
    elim-Safe (parse_ipv4 r w.address) _ _ (hung_up _ t s) (λ x at_x.
      elim-Safe (parse_ipv4 r w.gateway) _ _ (hung_up _ t s) (λ g at_g.
        let range = validate_client-mtu r c valid in
        let (low, high) = subst IsConsistent e consistent in
        settle-Safe a _ _
          (record {
            assigned = parse_ipv4-is_4 r w.address at_x;
            gateway = parse_ipv4-is_4 r w.gateway at_g;
            low = ground (arith, range.shape, range.lower);
            high = ground (arith, range.shape, range.upper);
          })
          dialed)))

run_loop-Safe :
    (r : Readers) (c : ClientConfig) (attempts : List Attempt) (t : Tunnel)
    → validate_client r c ≡ []
    → All (λ a. IsConsistent a.welcome) attempts
    → Safe t
    → SafeSession (run_loop r c attempts t)
unfolding run_loop
run_loop-Safe r c [] t valid all s = s
run_loop-Safe r c (a ∷ rest) t valid all s =
    let here = round-Safe r c a t valid all.0 s in
    elim-Safe ((round r c a t).1) _ _ (run_loop-Safe r c rest _ valid all.1 here) (λ e _. here)

torn_down-Safe : (b : Bool) (t : Tunnel) → Safe t → Safe (if b then does tears_down t else t)
torn_down-Safe true t s = does-Safe tears_down t tt s
torn_down-Safe false t s = s

closed-Safe :
    {A : Type 0} (o : Option A) (t : Tunnel)
    → Safe t
    → Safe (elim o [ none ↦ t | some p ↦ does closes t ])
closed-Safe none t s = s
closed-Safe (some p) t s = does-Safe closes t tt s

close_down-Safe : (t : Tunnel) → Safe t → Safe (close_down t)
unfolding close_down
close_down-Safe t s = closed-Safe t.params _ (torn_down-Safe t.is_set_up t s)

heard-IsConsistent :
    (o : Result ClientError Welcome)
    → ((w : Welcome) → o ≡ ok w → IsConsistent (some w))
    → IsConsistent (heard o)
heard-IsConsistent (ok w) h = h w refl
heard-IsConsistent (err x) h = tt
heard-IsConsistent panic h = tt

welcome-IsConsistent :
    (jh : Json Hello) (jw : Json Welcome) (c : ClientConfig) (d : Dial) (a : Attempt)
    → IsConsistent (attempt jh jw c (d, a)).welcome
unfolding attempt
welcome-IsConsistent jh jw c d a = heard-IsConsistent (connect jh jw c d).outcome λ w e.
    let (id, v, made, same, agreed) = connect_opens jh jw c d (connect-is_open jh jw c d w e) in
    subst (λ x. IsConsistent (heard x)) (sym same ∙ e) (agreed.low, agreed.high)

attempt-IsConsistent :
    (jh : Json Hello) (jw : Json Welcome) (c : ClientConfig) (rounds : List (Dial × Attempt))
    → All (λ a. IsConsistent a.welcome) (map (attempt jh jw c) rounds)
attempt-IsConsistent jh jw c [] = tt
attempt-IsConsistent jh jw c ((d, a) ∷ rest) =
    (welcome-IsConsistent jh jw c d a, attempt-IsConsistent jh jw c rest)

-- Under a client's configuration that Validate accepts, and whatever the servers answer in each
-- round, the parameters with which Run opens the device, sets it up, reads it and runs sessions are
-- two IPv4 addresses and an MTU of 576 to 1500.
pub run-Safe :
    (r : Readers) (jh : Json Hello) (jw : Json Welcome) (c : ClientConfig)
    (rounds : List (Dial × Attempt))
    → validate_client r c ≡ []
    → Safe (run r c (map (attempt jh jw c) rounds)).0
unfolding run
run-Safe r jh jw c rounds valid =
    let s = run_loop r c (map (attempt jh jw c) rounds) start in
    let safe : SafeSession s =
      run_loop-Safe r c _ start valid (attempt-IsConsistent jh jw c rounds)
        (record { params = tt; effects = tt }) in
    elim-Safe s.1 s (λ e. (close_down s.0, s.1)) safe (λ e _. close_down-Safe s.0 safe)
