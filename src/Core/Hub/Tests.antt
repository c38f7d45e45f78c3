-- ===== src/Core/Hub/Tests.antt =====
-- internal/core/hub.go: two sessions of one address, as in hub_test.go.
use mathlib.Core.List.{Memᴰ}
use veilink.Prelude.{
  ◌+◌, ◌^◌, length, ◌≤◌, insert, ◌%◌, lookup, ◌∷◌, [], refl, ◌≡◌, arith, none, true, false, List,
}
use veilink.Netip.{addr_Eq, v4, Addr}
use veilink.Metrics.{zero_counters}
use veilink.Core.Hub.{Hub, Peer, new_hub, register, register_locked, register_finish}
use veilink.Core.Hub.Registry.{
  step, Call, registers, unregisters, dispatches, receives, closes_all, run, IsValid,
  run-new_hub-IsValid,
}
use veilink.Core.Hub.Directory.{view, Follows}
use mathlib.Core.Quot
use veilink.Core.Hub.Directory.Representation.{call}
use veilink.Core.Hub.Directory.Commuting.{registrations_commute}
use veilink.Core.Hub.Directory.Refinement.{answers, run-Follows}
use veilink.Core.Hub.Interleaving.{
  World, start, locked, finished, Reach, here, next, locks, finishes,
}
use veilink.Core.Hub.Interleaving.Exclusive.{Reach-exclusive, Reach-gauge}

abbrev address : Addr
address = v4 172818434

abbrev old_peer : Peer
old_peer = record { id = 1; name = []; addr = address }

abbrev new_peer : Peer
new_peer = record { id = 2; name = []; addr = address }

abbrev hub : Hub
hub = (register (new_hub (λ i. 2) zero_counters 4) old_peer).0

hub_registers : (register hub new_peer).1 ≡ true
unfolding register register_locked register_finish new_hub lookup insert
hub_registers = refl

abbrev calls : List Call
calls =
    registers old_peer
    ∷ registers new_peer
    ∷ unregisters old_peer
    ∷ dispatches address (1 ∷ [])
    ∷ receives new_peer
    ∷ closes_all
    ∷ []

run-new_hub-IsValid_example : IsValid (run (new_hub (λ i. 2) zero_counters 4) calls)
run-new_hub-IsValid_example = run-new_hub-IsValid (λ i. 2) 4 calls (omega arith)

-- The second session is past the lock, and then done.
abbrev first_locked : World
first_locked =
    locked (start (λ i. 2) 4) old_peer
      (record (new_hub (λ i. 2) zero_counters 4) { peers = (address, old_peer) ∷ [] }) none

abbrev first_done : World
first_done = finished first_locked [] [] none

first_reached : Reach (start (λ i. 2) 4) first_done
unfolding new_hub register_locked lookup insert
first_reached = next (next here (locks old_peer refl)) (finishes [] [] none refl)

Reach-exclusive_example : old_peer.id ≡ old_peer.id
unfolding register_finish new_hub
Reach-exclusive_example =
    Reach-exclusive (λ i. 2) 4 first_reached refl old_peer old_peer (Memᴰ.head refl)
      (Memᴰ.head refl) refl refl refl

Reach-gauge_example :
    (first_done.hub.metrics.active_sessions % 2 ^ 64 ≡ length first_done.hub.peers % 2 ^ 64)
    × (length first_done.hub.peers ≤ first_done.hub.max_peers)
Reach-gauge_example = Reach-gauge (λ i. 2) 4 first_reached refl

run-Follows_example :
    Follows calls
      (answers (new_hub (λ i. 2) zero_counters 4) calls)
      (record {
        owner = λ a. none;
        sessions = 0;
        limit = 4;
        waiting = λ i. [];
        room = λ i. 2;
        ended = λ i. false;
      })
      (view (run (new_hub (λ i. 2) zero_counters 4) calls))
run-Follows_example = run-Follows (λ i. 2) 4 calls (omega arith)

-- A hub with a session of another address in it.
abbrev joined : Hub
joined = run (new_hub (λ i. 2) zero_counters 4) (registers old_peer ∷ [])

abbrev third_peer : Peer
third_peer = record { id = 3; name = []; addr = v4 172818437 }

abbrev fourth_peer : Peer
fourth_peer = record { id = 4; name = []; addr = v4 172818438 }

joined-IsValid : IsValid joined
joined-IsValid = run-new_hub-IsValid (λ i. 2) 4 (registers old_peer ∷ []) (omega arith)

joined_room : length joined.peers + 2 ≤ joined.max_peers
unfolding run step register register_locked register_finish new_hub lookup insert
joined_room = omega arith

registrations_commute_example :
    (answers joined (registers third_peer ∷ registers fourth_peer ∷ []) ≡ true ∷ true ∷ [])
    × (answers joined (registers third_peer ∷ registers fourth_peer ∷ calls)
        ≡ answers joined (registers fourth_peer ∷ registers third_peer ∷ calls))
    × (call (registers fourth_peer) (call (registers third_peer) (Quot.mk (joined, joined-IsValid)))
        ≡ call
            (registers third_peer)
            (call (registers fourth_peer) (Quot.mk (joined, joined-IsValid))))
registrations_commute_example =
    registrations_commute joined joined-IsValid third_peer fourth_peer calls refl joined_room
