-- ===== src/Core/Hub/Interleaving.antt =====
-- internal/core/hub.go under concurrency: goroutines stand between the locked part of `Register` and
-- the part after it, and between the look-up of `Dispatch` and its send, while others run.
pub mod Registering
pub mod Exclusive
use veilink.Prelude.{
  ℕ, suc, ◌+◌, ◌-◌, ◌%◌, ◌^◌, ◌≤◌, ◌<◌, ◌≡◌, refl, ◌≢◌, ◌⊎◌, inl, inr, Bool, true, false, ◌&&◌,
  ◌||◌, not, List, [], ◌∷◌, ◌++◌, Option, none, some, arith, leb, ltb, ◌==◌, if◌then◌else◌,
  Option-cases, Bool-cases, length, Bytes, lookup, insert, delete, Distinct, lookup-insert,
  lookup-delete, lookup-insert_self, insert-Distinct, delete-Distinct, length-insert_new,
  length-insert_old, length-delete,
}
use veilink.Metrics.{Counters, zero_counters}
use veilink.Netip.{Addr, addr_eq, addr_eq_sound, addr_Eq}
use veilink.Core.Hub.{
  Hub, Peer, new_hub, cancel, register_locked, register_finish, unregister, send, receive, is_peer,
}

-- The hub, the replaced peers of the registrations that are past the lock and not yet done, and the
-- sessions that registered and have not unregistered.
pub record World : Type 0 where
  pub hub : Hub
  pub pending : List (Option Peer)
  pub sessions : List Peer

abbrev pub without : ℕ → List Peer → List Peer
without i [] = []
without i (p ∷ ps) = if p.id == i then without i ps else p ∷ without i ps

abbrev pub locked : World → Peer → Hub → Option Peer → World
locked w p h old = record { hub = h; pending = old ∷ w.pending; sessions = p ∷ w.sessions }

abbrev pub finished : World → List (Option Peer) → List (Option Peer) → Option Peer → World
finished w before after old = record w {
  hub = register_finish old w.hub;
  pending = before ++ after;
}

abbrev pub left : World → Peer → World
left w p = record w { hub = unregister w.hub p; sessions = without p.id w.sessions }

pub data Step (w : World) : World → Type 0 where
  locks :
      (p : Peer) {h : Hub} {old : Option Peer}
      → register_locked w.hub p ≡ some (h, old)
      → Step w (locked w p h old)
  finishes :
      (before after : List (Option Peer)) (old : Option Peer)
      → w.pending ≡ before ++ old ∷ after
      → Step w (finished w before after old)
  leaves : (p : Peer) → Step w (left w p)
  sends : (p : Peer) (packet : Bytes) → Step w (record w { hub = (send p packet w.hub).0 })
  takes :
      (p : Peer) {packet : Bytes} {h : Hub}
      → receive p w.hub ≡ some (packet, h)
      → Step w (record w { hub = h })
  cancels : (p : Peer) → Step w (record w { hub = cancel p w.hub })

pub data Reach (w : World) : World → Type 0 where
  here : Reach w w
  next : {u v : World} → Reach w u → Step u v → Reach w v

abbrev pub start : (ℕ → ℕ) → ℕ → World
start capacity max_peers = record {
  hub = new_hub capacity zero_counters max_peers;
  pending = [];
  sessions = [];
}

-- How many registrations have yet to count a new session.
abbrev pub uncounted : List (Option Peer) → ℕ
uncounted [] = 0
uncounted (none ∷ ps) = suc (uncounted ps)
uncounted (some old ∷ ps) = uncounted ps

-- Whether a registration has yet to cancel the peer.
abbrev pub awaits : ℕ → List (Option Peer) → Bool
awaits i [] = false
awaits i (none ∷ ps) = awaits i ps
awaits i (some old ∷ ps) = (old.id == i) || awaits i ps

-- A session owns its address, or is cancelled, or is about to be.
abbrev pub is_settled : World → Peer → Bool
is_settled w p =
    is_peer (lookup p.addr w.hub.peers) p || (w.hub.cancelled p.id || awaits p.id w.pending)

abbrev pub AllSettled : World → List Peer → Type 0
AllSettled w [] = Unit {0}
AllSettled w (p ∷ ps) = (is_settled w p ≡ true) × AllSettled w ps

pub record Inv (w : World) : Type 0 where
  pub distinct : Distinct w.hub.peers
  pub within : length w.hub.peers ≤ w.hub.max_peers
  pub gauge :
      (w.hub.metrics.active_sessions + uncounted w.pending) % 2 ^ 64 ≡ length w.hub.peers % 2 ^ 64
  pub settled : AllSettled w w.sessions
