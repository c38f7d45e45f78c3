-- ===== src/Core/Hub/Registry.antt =====
-- internal/core/hub.go: the registry that `Register` and `Unregister` keep, and its counters.
use veilink.Prelude.{
  ℕ, suc, ◌^◌, ◌≤◌, ◌<◌, ◌≡◌, ◌↔◌, refl, ◌≢◌, inl, inr, true, false, ◌&&◌, List, [], ◌∷◌, Option,
  none, some, arith, ◌==◌, if◌then◌else◌, Option-cases, length, Bytes, lookup, Distinct,
  lookup-insert, lookup-delete, insert-Distinct, delete-Distinct, length-insert_new,
  length-insert_old, length-delete,
}
use veilink.Metrics.{zero_counters}
use veilink.Netip.{Addr, addr_eq, addr_Eq}
use veilink.Core.Hub.{
  Hub, Peer, new_hub, cancel, register_locked, register_finish, register, unregister, send,
  dispatch, receive, cancel_all, close_all,
}

-- A peer stands under its own address, once; the gauge counts the peers, and they are within the limit.
pub record IsValid (h : Hub) : Type 0 where
  pub distinct : Distinct h.peers
  pub counted : h.metrics.active_sessions ≡ length h.peers
  pub within : length h.peers ≤ h.max_peers
  pub small : h.max_peers < 2 ^ 63

pub register-IsValid : (h : Hub) (p : Peer) → IsValid h → IsValid (register h p).0
unfolding register register_locked register_finish
register-IsValid h p v = elim (Option-cases (lookup p.addr h.peers)) [
  | inl new ↦
      ground (
        arith,
        new,
        length-insert_new p.addr p h.peers,
        insert-Distinct p.addr p h.peers v.distinct,
      )
  | inr (old, e) ↦ ground (
    arith,
    e,
    length-insert_old p.addr p old h.peers,
    insert-Distinct p.addr p h.peers v.distinct,
  )
]

pub unregister-IsValid : (h : Hub) (p : Peer) → IsValid h → IsValid (unregister h p)
unfolding unregister
unregister-IsValid h p v = elim (Option-cases (lookup p.addr h.peers)) [
  | inl new ↦ ground (arith, new)
  | inr (old, e) ↦ ground (
    arith,
    e,
    length-delete p.addr old h.peers v.distinct,
    delete-Distinct p.addr h.peers v.distinct,
  )
]

pub dispatch-IsValid :
    (h : Hub) (a : Addr) (packet : Bytes) → IsValid h → IsValid (dispatch h a packet).0
unfolding dispatch send
dispatch-IsValid h a packet v = ground arith

cancel_all-IsValid : (ps : List (Addr × Peer)) (h : Hub) → IsValid h → IsValid (cancel_all ps h)
unfolding cancel_all
cancel_all-IsValid [] h v = v
cancel_all-IsValid ((a, p) ∷ ps) h v =
    cancel_all-IsValid ps (cancel p h)
      (record { distinct = v.distinct; counted = v.counted; within = v.within; small = v.small })

pub close_all-IsValid : (h : Hub) → IsValid h → IsValid (close_all h)
unfolding close_all
close_all-IsValid h v = cancel_all-IsValid h.peers h v

-- A registration is refused if and only if nobody owns the address and the hub has as many peers as
-- its limit or more.
pub register_refused :
    (h : Hub) (p : Peer)
    → ((register h p).1 ≡ false) ↔ ((lookup p.addr h.peers ≡ none) × (h.max_peers ≤ length h.peers))
unfolding register register_locked
register_refused h p = (λ e. ground arith, λ e. ground (arith, e.0, e.1))

pub register_refused_unchanged :
    (h : Hub) (p : Peer) → (register h p).1 ≡ false → (register h p).0 ≡ h
unfolding register register_locked
register_refused_unchanged h p e = ground arith

-- What an accepted registration changes: the peer owns its address, the others are as they were; a
-- peer that it replaces is cancelled, nobody else is.
pub record Registered (h : Hub) (p : Peer) (h' : Hub) : Type 0 where
  pub owner :
      (a : Addr) → lookup a h'.peers ≡ (if addr_eq p.addr a then some p else lookup a h.peers)
  pub replaced :
      {old : Peer}
      → lookup p.addr h.peers ≡ some old
      → (h'.cancelled old.id ≡ true)
        × (length h'.peers ≡ length h.peers)
        × ((i : ℕ) → i ≢ old.id → h'.cancelled i ≡ h.cancelled i)
  pub added :
      lookup p.addr h.peers ≡ none
      → (length h'.peers ≡ suc (length h.peers)) × ((i : ℕ) → h'.cancelled i ≡ h.cancelled i)

register_owner :
    (h : Hub) (p : Peer) (a : Addr)
    → (register h p).1 ≡ true
    → lookup a (register h p).0.peers ≡ (if addr_eq p.addr a then some p else lookup a h.peers)
unfolding register register_locked register_finish
register_owner h p a e = ground (arith, lookup-insert p.addr a p h.peers)

register_replaced :
    (h : Hub) (p old : Peer)
    → lookup p.addr h.peers ≡ some old
    → ((register h p).0.cancelled old.id ≡ true)
      × (length (register h p).0.peers ≡ length h.peers)
      × ((i : ℕ) → i ≢ old.id → (register h p).0.cancelled i ≡ h.cancelled i)
unfolding register register_locked register_finish
register_replaced h p old e = (
  ground (arith, e),
  ground (arith, e, length-insert_old p.addr p old h.peers),
  λ i ne. ground (arith, e),
)

register_added :
    (h : Hub) (p : Peer)
    → (register h p).1 ≡ true
    → lookup p.addr h.peers ≡ none
    → (length (register h p).0.peers ≡ suc (length h.peers))
      × ((i : ℕ) → (register h p).0.cancelled i ≡ h.cancelled i)
unfolding register register_locked register_finish
register_added h p ok e =
    (ground (arith, e, length-insert_new p.addr p h.peers), λ i. ground (arith, e))

-- After a registration that succeeds, the peer owns its address and every other address has the
-- owner it had; a peer that it replaced is cancelled and nobody else, with as many peers as before;
-- with no peer replaced there is one peer more and nobody is cancelled.
pub register-Registered :
    (h : Hub) (p : Peer) → (register h p).1 ≡ true → Registered h p (register h p).0
register-Registered h p e = record {
  owner = λ a. register_owner h p a e;
  replaced = λ {old} r. register_replaced h p old r;
  added = λ n. register_added h p e n;
}

-- After `Unregister` of a peer every address has the owner it had, but the peer's own address has
-- none if its owner was that very peer.
pub unregister_lem :
    (h : Hub) (p : Peer) (a : Addr)
    → lookup a (unregister h p).peers ≡ elim (lookup p.addr h.peers) [
      | none ↦ lookup a h.peers
      | some q ↦ if (q.id == p.id) && addr_eq p.addr a then none else lookup a h.peers
    ]
unfolding unregister
unregister_lem h p a = ground (arith, lookup-delete p.addr a h.peers)

-- The calls of the sessions and of the packet loop, in any order.
pub data Call : Type 0 where
  registers unregisters receives : Peer → Call
  dispatches : Addr → Bytes → Call
  closes_all : Call

abbrev pub after_receive : Hub → Option (Bytes × Hub) → Hub
after_receive h none = h
after_receive h (some (packet, h')) = h'

unfoldable pub step : Hub → Call → Hub
step h (registers p) = (register h p).0
step h (unregisters p) = unregister h p
step h (receives p) = after_receive h (receive p h)
step h (dispatches a packet) = (dispatch h a packet).0
step h closes_all = close_all h

unfoldable pub run : Hub → List Call → Hub
run h [] = h
run h (c ∷ cs) = run (step h c) cs

receive-IsValid : (h : Hub) (p : Peer) → IsValid h → IsValid (after_receive h (receive p h))
unfolding receive
receive-IsValid h p v = ground arith

pub step-IsValid : (h : Hub) (c : Call) → IsValid h → IsValid (step h c)
unfolding step
step-IsValid h (registers p) v = register-IsValid h p v
step-IsValid h (unregisters p) v = unregister-IsValid h p v
step-IsValid h (receives p) v = receive-IsValid h p v
step-IsValid h (dispatches a packet) v = dispatch-IsValid h a packet v
step-IsValid h closes_all v = close_all-IsValid h v

run-IsValid : (h : Hub) (cs : List Call) → IsValid h → IsValid (run h cs)
unfolding run
run-IsValid h [] v = v
run-IsValid h (c ∷ cs) v = run-IsValid (step h c) cs (step-IsValid h c v)

-- After any sequence of registrations, departures, dispatches, receives and closings on a new hub
-- with a limit below 2 ^ 63, no address has two peers, the session gauge is the number of peers,
-- and that is within the limit.
pub run-new_hub-IsValid :
    (capacity : ℕ → ℕ) (max_peers : ℕ) (cs : List Call)
    → max_peers < 2 ^ 63
    → IsValid (run (new_hub capacity zero_counters max_peers) cs)
unfolding new_hub
run-new_hub-IsValid capacity max_peers cs h =
    run-IsValid (new_hub capacity zero_counters max_peers) cs
      (record { distinct = tt; counted = refl; within = omega arith; small = h })
