-- ===== src/Core/Hub/Interleaving/Exclusive.antt =====
-- internal/core/hub.go under concurrency: the gauge and the exclusive ownership of an address.
use veilink.Prelude.{
  ℕ, ◌+◌, ◌%◌, ◌^◌, ◌≤◌, ◌≡◌, refl, ap, inl, inr, true, false, List, [], ◌∷◌, some, arith, ◌==◌,
  Option-cases, Bool-cases, length, Bytes, lookup, Distinct, lookup-delete, delete-Distinct,
  length-delete,
}
use mathlib.Core.List.{Memᴰ}
use veilink.Netip.{addr_eq_sound, addr_Eq}
use veilink.Core.Hub.{Hub, Peer, new_hub, cancel, unregister, send, receive}
use veilink.Core.Hub.Interleaving.{
  World, without, Step, locks, finishes, leaves, sends, takes, cancels, Reach, here, next, start,
  left, uncounted, is_settled, AllSettled, Inv,
}
use veilink.Core.Hub.Interleaving.Registering.{AllSettled-mono, locks-Inv, finishes-Inv}

leaves-settled :
    (w : World) (p q : Peer)
    → (q.id == p.id) ≡ false
    → is_settled w q ≡ true
    → is_settled (left w p) q ≡ true
unfolding unregister
leaves-settled w p q ne s =
    ground (arith, lookup-delete p.addr q.addr w.hub.peers, addr_eq_sound p.addr q.addr)

leaves-AllSettled :
    (w : World) (p : Peer) (ps : List Peer)
    → AllSettled w ps
    → AllSettled (left w p) (without p.id ps)
leaves-AllSettled w p [] h = tt
leaves-AllSettled w p (q ∷ ps) h = elim (Bool-cases (q.id == p.id)) [
  | inl same ↦ rw same (leaves-AllSettled w p ps h.1)
  | inr other ↦ rw other (leaves-settled w p q other h.0, leaves-AllSettled w p ps h.1)
]

leaves-counts :
    (h : Hub) (p : Peer) (n : ℕ)
    → Distinct h.peers
    → length h.peers ≤ h.max_peers
    → (h.metrics.active_sessions + n) % 2 ^ 64 ≡ length h.peers % 2 ^ 64
    → Distinct (unregister h p).peers
      × (length (unregister h p).peers ≤ (unregister h p).max_peers)
      × (((unregister h p).metrics.active_sessions + n) % 2 ^ 64
          ≡ length (unregister h p).peers % 2 ^ 64)
unfolding unregister
leaves-counts h p n d l g = elim (Option-cases (lookup p.addr h.peers)) [
  | inl new ↦ ground (arith, new)
  | inr (old, e) ↦
      ground (arith, e, length-delete p.addr old h.peers d, delete-Distinct p.addr h.peers d)
]

leaves-Inv : (w : World) (p : Peer) → Inv w → Inv (left w p)
leaves-Inv w p v =
    let c = leaves-counts w.hub p (uncounted w.pending) v.distinct v.within v.gauge in
    record {
      distinct = c.0;
      within = c.1;
      gauge = c.2;
      settled = leaves-AllSettled w p w.sessions v.settled;
    }

sends-Inv :
    (w : World) (p : Peer) (packet : Bytes)
    → Inv w
    → Inv (record w { hub = (send p packet w.hub).0 })
unfolding send
sends-Inv w p packet v = record {
  distinct = ground (arith, v.distinct);
  within = ground (arith, v.within);
  gauge = ground (arith, v.gauge);
  settled =
      AllSettled-mono w (record w { hub = (send p packet w.hub).0 }) w.sessions
        (λ q s. ground arith) v.settled;
}

takes-Inv :
    (w : World) (p : Peer) (packet : Bytes) (h : Hub)
    → receive p w.hub ≡ some (packet, h)
    → Inv w
    → Inv (record w { hub = h })
unfolding receive
takes-Inv w p packet h e v = record {
  distinct = ground (arith, v.distinct);
  within = ground (arith, v.within);
  gauge = ground (arith, v.gauge);
  settled = AllSettled-mono w (record w { hub = h }) w.sessions (λ q s. ground arith) v.settled;
}

cancels-Inv : (w : World) (p : Peer) → Inv w → Inv (record w { hub = cancel p w.hub })
cancels-Inv w p v = record {
  distinct = v.distinct;
  within = v.within;
  gauge = v.gauge;
  settled =
      AllSettled-mono w (record w { hub = cancel p w.hub }) w.sessions (λ q s. ground arith)
        v.settled;
}

Step-Inv : {w u : World} → Step w u → Inv w → Inv u
Step-Inv {w = w} (locks p {h = h} {old = old} e) v = locks-Inv w p h old e v
Step-Inv {w = w} (finishes before after old e) v = finishes-Inv w before after old e v
Step-Inv {w = w} (leaves p) v = leaves-Inv w p v
Step-Inv {w = w} (sends p packet) v = sends-Inv w p packet v
Step-Inv {w = w} (takes p {packet = packet} {h = h} e) v = takes-Inv w p packet h e v
Step-Inv {w = w} (cancels p) v = cancels-Inv w p v

Reach-Inv : {w u : World} → Inv w → Reach w u → Inv u
Reach-Inv v here = v
Reach-Inv v (next r s) = Step-Inv s (Reach-Inv v r)

start-Inv : (capacity : ℕ → ℕ) (max_peers : ℕ) → Inv (start capacity max_peers)
unfolding new_hub
start-Inv capacity max_peers = record {
  distinct = tt;
  within = omega arith;
  gauge = refl;
  settled = tt;
}

pub Reach-start-Inv :
    (capacity : ℕ → ℕ) (max_peers : ℕ) {w : World} → Reach (start capacity max_peers) w → Inv w
Reach-start-Inv capacity max_peers r = Reach-Inv (start-Inv capacity max_peers) r

AllSettled-Memᴰ :
    (w : World) (p : Peer) (ps : List Peer) → AllSettled w ps → Memᴰ p ps → is_settled w p ≡ true
AllSettled-Memᴰ w p [] h m = elim m [ ]
AllSettled-Memᴰ w p (q ∷ ps) h (Memᴰ.head e) = rw e h.0
AllSettled-Memᴰ w p (q ∷ ps) h (Memᴰ.tail m) = AllSettled-Memᴰ w p ps h.1 m

-- In every state that interleaved registrations, departures, sends and cancellations reach from an
-- empty hub, once no registration is under way, two sessions with one address that are both
-- registered and not cancelled have the same pointer.
pub Reach-exclusive :
    (capacity : ℕ → ℕ) (max_peers : ℕ) {w : World}
    → Reach (start capacity max_peers) w
    → w.pending ≡ []
    → (p q : Peer) → Memᴰ p w.sessions
    → Memᴰ q w.sessions
    → p.addr ≡ q.addr
    → w.hub.cancelled p.id ≡ false
    → w.hub.cancelled q.id ≡ false
    → p.id ≡ q.id
Reach-exclusive capacity max_peers {w} r idle p q mp mq same lp lq =
    let v = Reach-start-Inv capacity max_peers r in
    let sp = AllSettled-Memᴰ w p w.sessions v.settled mp in
    let sq = AllSettled-Memᴰ w q w.sessions v.settled mq in ground (arith, sp, sq, same)

-- In every state that interleaved steps reach from an empty hub, once no registration is under way,
-- the session gauge is the number of peers modulo 2 ^ 64, and that number is within the limit.
pub Reach-gauge :
    (capacity : ℕ → ℕ) (max_peers : ℕ) {w : World}
    → Reach (start capacity max_peers) w
    → w.pending ≡ []
    → (w.hub.metrics.active_sessions % 2 ^ 64 ≡ length w.hub.peers % 2 ^ 64)
      × (length w.hub.peers ≤ w.hub.max_peers)
Reach-gauge capacity max_peers {w} r idle =
    let v = Reach-start-Inv capacity max_peers r in
    (omega (arith, v.gauge, ap uncounted idle), v.within)
