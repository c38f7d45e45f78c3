-- ===== src/Client/Run.antt =====
-- internal/client/client.go: the reconnect loop of `Run` and what it defers. What each round meets is
-- an argument, and the calls that open, set up and close are effects, the oldest first.
pub mod Lifecycle
pub mod Options
pub mod Termination
mod Tests
use veilink.Prelude.{
  ℕ, List, [], ◌∷◌, ◌++◌, ◌+◌, ◌-◌, Option, none, some, true, false, Bool, Bytes, not, ◌||◌, ◌&&◌,
  ok, err, panic, Result, ◌==◌, ℤ, pos, negsuc, min_ℤ, eq_ℤ, if◌then◌else◌,
}
use veilink.Netip.{Addr, addr_eq, is_4}
use veilink.Config.{ClientConfig, Readers}
use veilink.Protocol.Control.{Hello, Welcome, Json}
use veilink.Client.{Dial, ClientError, connect}

pub record Params : Type 0 where
  pub assigned : Addr
  pub gateway : Addr
  pub mtu : ℤ

pub data Effect : Type 0 where
  opens sets_up reads serves : Params → Effect
  tears_down closes : Effect

-- The variables of `Run`: what the device was opened with, whether there is a cleanup, the
-- connections that are open, and what was done.
pub record Tunnel : Type 0 where
  pub params : Option Params
  pub is_set_up : Bool
  pub connections : ℕ
  pub effects : List Effect

abbrev pub start : Tunnel
start = record { params = none; is_set_up = false; connections = 0; effects = [] }

-- How `Run` returns; `cancelled` is no error, but for one of `CloseNow`.
pub data Ending : Type 0 where
  cancelled invalid_address invalid_gateway open_failed no_name setup_failed changed : Ending

-- What a round meets: the welcome of `connect`, if it succeeds, which of the device's calls succeed,
-- whether the context is cancelled at the end, and whether the sleep is not cut short.
pub record Attempt : Type 0 where
  pub welcome : Option Welcome
  pub opened : Bool
  pub named : Bool
  pub is_set_up : Bool
  pub stopped : Bool
  pub slept : Bool

abbrev pub wait : Attempt → Option Ending
wait a = if a.stopped || not a.slept then some cancelled else none

abbrev pub does : Effect → Tunnel → Tunnel
does e t = record t { effects = t.effects ++ e ∷ [] }

abbrev pub dials : Tunnel → Tunnel
dials t = record t { connections = t.connections + 1 }

abbrev pub hangs_up : Tunnel → Tunnel
hangs_up t = record t { connections = t.connections - 1 }

abbrev pub session : Attempt → Params → Tunnel → Tunnel × Option Ending
session a p t = (hangs_up (does (serves p) t), wait a)

-- The first connection opens the device.
pub first_session : Attempt → Params → Tunnel → Tunnel × Option Ending
first_session a p t =
    if not a.opened
    then (hangs_up t, some open_failed)
    else let t' = does (opens p) (record t { params = some p }) in
      if not a.named
      then (hangs_up t', some no_name)
      else if not a.is_set_up
      then (hangs_up t', some setup_failed)
      else session a p (does (reads p) (does (sets_up p) (record t' { is_set_up = true })))

abbrev pub heard : Result ClientError Welcome → Option Welcome
heard (ok w) = some w
heard (err _) = none
heard panic = none

-- The call of `connect` at the head of a round, and what else the round meets.
pub attempt : Json Hello → Json Welcome → ClientConfig → Dial × Attempt → Attempt
attempt jh jw c (d, a) = record a { welcome = heard (connect jh jw c d).outcome }

abbrev pub is_changed : Params → Params → Bool
is_changed p q =
    not (addr_eq p.assigned q.assigned)
    || (not (addr_eq p.gateway q.gateway) || not (eq_ℤ p.mtu q.mtu))

pub settle : Attempt → Params → Tunnel → Tunnel × Option Ending
settle a p t = elim t.params [
  | none ↦ first_session a p t
  | some q ↦ if is_changed p q then (hangs_up t, some changed) else session a q t
]

-- `netip.ParseAddr` with the test of `Is4`.
abbrev pub parse_ipv4 : Readers → Bytes → Option Addr
parse_ipv4 r b = elim (r.parse_addr b) [ none ↦ none | some x ↦ if is_4 x then some x else none ]

pub round : Readers → ClientConfig → Attempt → Tunnel → Tunnel × Option Ending
round r c a t = elim a.welcome [
  | none ↦ (t, wait a)
  | some w ↦ (elim (parse_ipv4 r w.address) [
    | none ↦ (hangs_up (dials t), some invalid_address)
    | some x ↦ (elim (parse_ipv4 r w.gateway) [
      | none ↦ (hangs_up (dials t), some invalid_gateway)
      | some g ↦ settle a (record { assigned = x; gateway = g; mtu = min_ℤ c.mtu w.mtu }) (dials t)
    ])
  ])
]

pub run_loop : Readers → ClientConfig → List Attempt → Tunnel → Tunnel × Option Ending
run_loop r c [] t = (t, none)
run_loop r c (a ∷ rest) t =
    let s = round r c a t in
    let more = run_loop r c rest s.0 in elim s.1 [ none ↦ more | some e ↦ s ]

-- The deferred function: the cleanup, if there is one, then the device.
pub close_down : Tunnel → Tunnel
close_down t =
    let t' = if t.is_set_up then does tears_down t else t in
    elim t.params [ none ↦ t' | some p ↦ does closes t' ]

-- `Run`, once the name of the server is resolved, over its rounds; `none` while it still runs.
pub run : Readers → ClientConfig → List Attempt → Tunnel × Option Ending
run r c attempts =
    let s = run_loop r c attempts start in elim s.1 [ none ↦ s | some e ↦ (close_down s.0, s.1) ]
