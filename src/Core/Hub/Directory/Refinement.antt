-- ===== src/Core/Hub/Directory/Refinement.antt =====
-- internal/core/hub.go: each call of the hub is a call of the directory that it shows.
use mathlib.Core.Path.{fun_ext}
use veilink.Prelude.{
  ◌≡◌, ◌↔◌, ◌⊎◌, ◌==◌, ◌<◌, ◌^◌, refl, sym, ap, arith, inl, inr, ℕ, Bool, true, false, List, [],
  ◌∷◌, Option, none, some, Bytes, ltb, leb, length, lookup, Option-cases, Bool-cases, lookup-insert,
  lookup-delete, length-insert_new, length-insert_old, length-delete, Distinct,
}
use veilink.Netip.{Addr, addr_eq, addr_Eq, addr_eq_refl, addr_eq_sound}
use veilink.Metrics.{zero_counters}
use veilink.Core.Hub.{
  Hub, Peer, new_hub, register, unregister, dispatch, receive, close_all, cancel, cancel_all,
  register_locked, register_finish, send,
}
use veilink.Core.Hub.Registry.{
  Call, registers, unregisters, receives, dispatches, closes_all, step, run, IsValid, step-IsValid,
  after_receive,
}
use veilink.Core.Hub.Directory.{
  Directory, view, enters, leaves, delivers, takes, EndsAll, Promise, Follows, done, calls,
}

-- What a call of the hub answers.
unfoldable pub answer : Hub → Call → Bool
answer h (registers p) = (register h p).1
answer h (dispatches a packet) = (dispatch h a packet).1
answer h (unregisters p) = true
answer h (receives p) = true
answer h closes_all = true

unfoldable pub answers : Hub → List Call → List Bool
answers h [] = []
answers h (c ∷ cs) = answer h c ∷ answers (step h c) cs

abbrev Parts : (Addr → Option Peer) → ℕ → ℕ → (ℕ → List Bytes) → (ℕ → ℕ) → (ℕ → Bool) → Directory
Parts o n l w r e = record { owner = o; sessions = n; limit = l; waiting = w; room = r; ended = e }

changed :
    {o o' : Addr → Option Peer} {n n' : ℕ} (l : ℕ) (w : ℕ → List Bytes) (r : ℕ → ℕ) (e : ℕ → Bool)
    → ((a : Addr) → o a ≡ o' a)
    → n ≡ n'
    → Parts o n l w r e ≡ Parts o' n' l w r e
changed l w r e same count = λ i. Parts (fun_ext same i) (count i) l w r e

registers-Promise :
    (h : Hub) (p : Peer) → enters p (view h) ≡ (view (register h p).0, (register h p).1)
unfolding register register_locked register_finish
registers-Promise h p = elim (Option-cases (lookup p.addr h.peers)) [
  | inr (old, e) ↦
      rw (e, register_locked, register)
        (ap (λ d. (d, true))
          (changed h.max_peers h.queues h.capacity _ (λ a. sym (lookup-insert p.addr a p h.peers))
            (sym (length-insert_old p.addr p old h.peers e))))
  | inl new ↦ elim (Bool-cases (leb h.max_peers (length h.peers))) [
    | inl full ↦ rw (new, register_locked, register) (rw full refl)
    | inr room ↦
        rw (new, register_locked, register)
          (rw room (
            ap (λ d. (d, true))
              (changed h.max_peers h.queues h.capacity _
                (λ a. sym (lookup-insert p.addr a p h.peers))
                (sym (length-insert_new p.addr p h.peers new)))))
  ]
]

unregisters-Promise : (h : Hub) (p : Peer) → IsValid h → leaves p (view h) ≡ view (unregister h p)
unfolding unregister
unregisters-Promise h p v = elim (Option-cases (lookup p.addr h.peers)) [
  | inl new ↦ rw new refl
  | inr (old, e) ↦ elim (Bool-cases (old.id == p.id)) [
    | inr other ↦ rw (e, other) refl
    | inl mine ↦
        rw (e, mine)
          (changed h.max_peers h.queues h.capacity h.cancelled
            (λ a. sym (lookup-delete p.addr a h.peers))
            (omega (arith, length-delete p.addr old h.peers v.distinct e)))
  ]
]

dispatches-Promise :
    (h : Hub) (a : Addr) (packet : Bytes)
    → delivers a packet (view h) ≡ (view (dispatch h a packet).0, (dispatch h a packet).1)
unfolding dispatch send
dispatches-Promise h a packet = elim (Option-cases (lookup a h.peers)) [
  | inl new ↦ rw (new, dispatch) refl
  | inr (p, e) ↦ elim (Bool-cases (ltb (length (h.queues p.id)) (h.capacity p.id))) [
    | inl room ↦ rw (e, dispatch) (rw room refl)
    | inr full ↦ rw (e, dispatch) (rw full refl)
  ]
]

receives-Promise : (h : Hub) (p : Peer) → takes p (view h) ≡ view (after_receive h (receive p h))
unfolding receive
receives-Promise h p = go (h.queues p.id) refl
  where
    go :
        (q : List Bytes)
        → h.queues p.id ≡ q
        → takes p (view h) ≡ view (after_receive h (receive p h))
    go [] e = rw (e, receive) refl
    go (packet ∷ rest) e = rw (e, receive) refl

-- `CloseAll` keeps all but the contexts.
record Kept (h h' : Hub) : Type 0 where
  peers : h'.peers ≡ h.peers
  max_peers : h'.max_peers ≡ h.max_peers
  queues : h'.queues ≡ h.queues
  capacity : h'.capacity ≡ h.capacity

cancel_all-Kept : (ps : List (Addr × Peer)) (h : Hub) → Kept h (cancel_all ps h)
unfolding cancel_all
cancel_all-Kept [] h = record { peers = refl; max_peers = refl; queues = refl; capacity = refl }
cancel_all-Kept ((a, p) ∷ ps) h =
    let k = cancel_all-Kept ps (cancel p h) in
    record { peers = k.peers; max_peers = k.max_peers; queues = k.queues; capacity = k.capacity }

abbrev Owns : List (Addr × Peer) → ℕ → Type 0
Owns ps i = (a : Addr) × (p : Peer) × (lookup a ps ≡ some p) × (p.id ≡ i)

cancel_all_ends :
    (ps : List (Addr × Peer)) (h : Hub) (i : ℕ)
    → Distinct ps
    → ((cancel_all ps h).cancelled i ≡ true) ↔ ((h.cancelled i ≡ true) ⊎ Owns ps i)
unfolding cancel_all lookup
cancel_all_ends [] h i d =
    (λ e. inl e, λ x. elim x [ inl e ↦ e | inr (a, p, e, is) ↦ absurd (ground (arith, e)) ])
cancel_all_ends ((a, p) ∷ ps) h i d = (
  (λ e. elim ((cancel_all_ends ps (cancel p h) i d.1).0 e) [
    | inl now ↦ elim (Bool-cases (i == p.id)) [
      | inl same ↦ inr (a, p, ground (arith, addr_eq_refl a), ground arith)
      | inr other ↦ inl (ground arith)
    ]
    | inr (b, q, at, is) ↦ inr (b, q, ground (arith, addr_eq_sound a b, d.0), is)
  ]),
  (λ x. (cancel_all_ends ps (cancel p h) i d.1).1 (elim x [
    | inl e ↦ inl (ground arith)
    | inr (b, q, at, is) ↦ elim (Bool-cases (addr_eq a b)) [
      | inl same ↦ inl (ground (arith, at, same))
      | inr other ↦ inr (b, q, ground (arith, at, other), is)
    ]
  ])),
)

closes_all-EndsAll : (h : Hub) → IsValid h → EndsAll (view h) (view (close_all h))
unfolding close_all
closes_all-EndsAll h v =
    let k = cancel_all-Kept h.peers h in
    record {
      owner = ap (λ ps a. lookup a ps) k.peers;
      sessions = ap length k.peers;
      limit = k.max_peers;
      waiting = k.queues;
      room = k.capacity;
      ended = λ i. cancel_all_ends h.peers h i v.distinct;
    }

pub step-Promise :
    (h : Hub) (c : Call) → IsValid h → Promise c (view h) (view (step h c)) (answer h c)
unfolding step answer
step-Promise h (registers p) v = registers-Promise h p
step-Promise h (unregisters p) v = (unregisters-Promise h p v, refl)
step-Promise h (receives p) v = (receives-Promise h p, refl)
step-Promise h (dispatches a packet) v = dispatches-Promise h a packet
step-Promise h closes_all v = (closes_all-EndsAll h v, refl)

run_from-Follows :
    (h : Hub) (cs : List Call) → IsValid h → Follows cs (answers h cs) (view h) (view (run h cs))
unfolding run answers
run_from-Follows h [] v = done
run_from-Follows h (c ∷ cs) v =
    calls (step-Promise h c v) (run_from-Follows (step h c) cs (step-IsValid h c v))

-- On a new registry with a limit below 2^63, any sequence of calls follows what a directory
-- promises, with the answers of the calls: a registration enters the session under its address and
-- ends the one it replaces, or is refused at the limit; an unregistration takes only the session
-- itself out; a dispatch puts the packet behind those that wait for the owner of the address, or
-- answers false where there is no owner or no room; a receive takes the oldest; a close ends every
-- session that is registered and no other.
pub run-Follows :
    (capacity : ℕ → ℕ) (max_peers : ℕ) (cs : List Call)
    → max_peers < 2 ^ 63
    → Follows cs
        (answers (new_hub capacity zero_counters max_peers) cs)
        (record {
          owner = λ a. none;
          sessions = 0;
          limit = max_peers;
          waiting = λ i. [];
          room = capacity;
          ended = λ i. false;
        })
        (view (run (new_hub capacity zero_counters max_peers) cs))
unfolding new_hub lookup
run-Follows capacity max_peers cs small =
    run_from-Follows (new_hub capacity zero_counters max_peers) cs
      (record { distinct = tt; counted = refl; within = omega arith; small = small })
