-- ===== src/Core/Hub/Interleaving/Registering.antt =====
-- internal/core/hub.go under concurrency: a registration, before and after it lets go of the lock.
use veilink.Prelude.{
  ℕ, ◌+◌, ◌%◌, ◌^◌, ◌≤◌, ◌≡◌, refl, ap, inl, inr, true, ◌||◌, List, [], ◌∷◌, ◌++◌, Option, none,
  some, arith, Option-cases, length, lookup, Distinct, lookup-insert, lookup-insert_self,
  insert-Distinct, length-insert_new, length-insert_old,
}
use veilink.Netip.{addr_eq_sound, addr_Eq}
use veilink.Core.Hub.{Hub, Peer, register_locked, register_finish}
use veilink.Core.Hub.Interleaving.{
  World, locked, finished, uncounted, awaits, is_settled, AllSettled, Inv,
}

-- A step that keeps each settled session settled keeps them all.
pub AllSettled-mono :
    (w v : World) (ps : List Peer)
    → ((p : Peer) → is_settled w p ≡ true → is_settled v p ≡ true)
    → AllSettled w ps
    → AllSettled v ps
AllSettled-mono w v [] f h = tt
AllSettled-mono w v (p ∷ ps) f h = (f p h.0, AllSettled-mono w v ps f h.1)

uncounted-append : (xs ys : List (Option Peer)) → uncounted (xs ++ ys) ≡ uncounted xs + uncounted ys
uncounted-append [] ys = omega arith
uncounted-append (none ∷ xs) ys = omega (arith, uncounted-append xs ys)
uncounted-append (some p ∷ xs) ys = uncounted-append xs ys

awaits-append :
    (i : ℕ) (xs ys : List (Option Peer)) → awaits i (xs ++ ys) ≡ (awaits i xs || awaits i ys)
awaits-append i [] ys = refl
awaits-append i (none ∷ xs) ys = awaits-append i xs ys
awaits-append i (some p ∷ xs) ys = ground (arith, awaits-append i xs ys)

locks-settled :
    (w : World) (p : Peer) (h : Hub) (old : Option Peer)
    → register_locked w.hub p ≡ some (h, old)
    → (q : Peer) → is_settled w q ≡ true
    → is_settled (locked w p h old) q ≡ true
unfolding register_locked
locks-settled w p h old e q s =
    ground (arith, lookup-insert p.addr q.addr p w.hub.peers, addr_eq_sound p.addr q.addr)

locks-counts :
    (w : World) (p : Peer) (h : Hub) (old : Option Peer)
    → register_locked w.hub p ≡ some (h, old)
    → Inv w
    → Distinct h.peers
      × (length h.peers ≤ h.max_peers)
      × ((h.metrics.active_sessions + uncounted (old ∷ w.pending)) % 2 ^ 64
          ≡ length h.peers % 2 ^ 64)
unfolding register_locked
locks-counts w p h old e v = elim (Option-cases (lookup p.addr w.hub.peers)) [
  | inl new ↦ ground (
    arith,
    new,
    length-insert_new p.addr p w.hub.peers,
    insert-Distinct p.addr p w.hub.peers v.distinct,
  )
  | inr (o, known) ↦ ground (
    arith,
    known,
    length-insert_old p.addr p o w.hub.peers,
    insert-Distinct p.addr p w.hub.peers v.distinct,
  )
]

locks_own :
    (w : World) (p : Peer) (h : Hub) (old : Option Peer)
    → register_locked w.hub p ≡ some (h, old)
    → is_settled (locked w p h old) p ≡ true
unfolding register_locked
locks_own w p h old e = ground (arith, lookup-insert_self p.addr p w.hub.peers)

pub locks-Inv :
    (w : World) (p : Peer) (h : Hub) (old : Option Peer)
    → register_locked w.hub p ≡ some (h, old)
    → Inv w
    → Inv (locked w p h old)
locks-Inv w p h old e v =
    let c = locks-counts w p h old e v in
    record {
      distinct = c.0;
      within = c.1;
      gauge = c.2;
      settled = (
        locks_own w p h old e,
        AllSettled-mono w (locked w p h old) w.sessions (locks-settled w p h old e) v.settled,
      );
    }

finishes-settled :
    (w : World) (before after : List (Option Peer)) (old : Option Peer)
    → w.pending ≡ before ++ old ∷ after
    → (q : Peer) → is_settled w q ≡ true
    → is_settled (finished w before after old) q ≡ true
unfolding register_finish
finishes-settled w before after none e q s = ground (
  arith,
  ap (awaits q.id) e,
  awaits-append q.id before (none ∷ after),
  awaits-append q.id before after,
)
finishes-settled w before after (some old) e q s = ground (
  arith,
  ap (awaits q.id) e,
  awaits-append q.id before (some old ∷ after),
  awaits-append q.id before after,
)

finishes-gauge :
    (w : World) (before after : List (Option Peer)) (old : Option Peer)
    → w.pending ≡ before ++ old ∷ after
    → Inv w
    → ((register_finish old w.hub).metrics.active_sessions + uncounted (before ++ after)) % 2 ^ 64
      ≡ length (register_finish old w.hub).peers % 2 ^ 64
unfolding register_finish
finishes-gauge w before after none e v = omega (
  arith,
  v.gauge,
  ap uncounted e,
  uncounted-append before (none ∷ after),
  uncounted-append before after,
)
finishes-gauge w before after (some old) e v = omega (
  arith,
  v.gauge,
  ap uncounted e,
  uncounted-append before (some old ∷ after),
  uncounted-append before after,
)

pub finishes-Inv :
    (w : World) (before after : List (Option Peer)) (old : Option Peer)
    → w.pending ≡ before ++ old ∷ after
    → Inv w
    → Inv (finished w before after old)
unfolding register_finish
finishes-Inv w before after old e v = record {
  distinct = ground (arith, v.distinct);
  within = ground (arith, v.within);
  gauge = finishes-gauge w before after old e v;
  settled =
      AllSettled-mono w (finished w before after old) w.sessions
        (finishes-settled w before after old e) v.settled;
}
