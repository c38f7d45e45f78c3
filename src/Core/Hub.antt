-- ===== src/Core/Hub.antt =====
-- internal/core/hub.go. The peers are objects on the heap: a peer is known by `id`, which stands for
-- its pointer, and what its channel holds and whether its context is cancelled are kept by `id`.
-- A method that takes the lock more than once, or acts after it lets go, is cut there in parts.
pub mod Registry
pub mod Delivery
pub mod Interleaving
pub mod Directory
mod Tests
use veilink.Prelude.{
  ℕ, Bool, true, false, ◌&&◌, List, [], ◌∷◌, ◌++◌, Option, none, some, leb, ltb, ◌==◌,
  if◌then◌else◌, length, Bytes, Eq, lookup, insert, delete,
}
use veilink.Netip.{Addr, addr_Eq}
use veilink.Metrics.{Counters, add, decrement}

pub record Peer : Type 0 where
  pub id : ℕ
  pub name : Bytes
  pub addr : Addr

pub record Hub : Type 0 where
  pub peers : List (Addr × Peer)
  pub metrics : Counters
  pub max_peers : ℕ
  pub queues : ℕ → List Bytes  -- what the channel of each peer holds, oldest first
  pub capacity : ℕ → ℕ  -- of the channel of each peer
  pub cancelled : ℕ → Bool

-- `capacity` is what the channels made later will hold.
pub new_hub : (ℕ → ℕ) → Counters → ℕ → Hub
new_hub capacity m max_peers = record {
  peers = [];
  metrics = m;
  max_peers = max_peers;
  queues = λ i. [];
  capacity = capacity;
  cancelled = λ i. false;
}

abbrev pub is_none {ℓ} : {A : Type ℓ} → Option A → Bool
is_none none = true
is_none (some a) = false

-- `peer.Cancel()`.
abbrev pub cancel : Peer → Hub → Hub
cancel p h = record h { cancelled = λ i. if i == p.id then true else h.cancelled i }

abbrev pub count : (Counters → Counters) → Hub → Hub
count f h = record h { metrics = f h.metrics }

-- The part of `Register` under the lock: `none` where it is refused, else the peer replaced.
pub register_locked : Hub → Peer → Option (Hub × Option Peer)
register_locked h peer =
    let old = lookup peer.addr h.peers in
    if is_none old && leb h.max_peers (length h.peers)
    then none
    else some (record h { peers = insert peer.addr peer h.peers }, old)

-- The part after it.
pub register_finish : Option Peer → Hub → Hub
register_finish (some old) h = count (λ m. record m { accepted = add m.accepted 1 }) (cancel old h)
register_finish none h =
    count (λ m. record m { active_sessions = add m.active_sessions 1; accepted = add m.accepted 1 })
      h

pub register : Hub → Peer → Hub × Bool
register h peer = elim (register_locked h peer) [
  | none ↦ (h, false)
  | some (h', old) ↦ (register_finish old h', true)
]

-- `h.peers[peer.Addr] == peer`, a test on pointers.
abbrev pub is_peer : Option Peer → Peer → Bool
is_peer none peer = false
is_peer (some p) peer = p.id == peer.id

pub unregister : Hub → Peer → Hub
unregister h peer =
    if is_peer (lookup peer.addr h.peers) peer
    then count (λ m. record m { active_sessions = decrement m.active_sessions })
        (record h { peers = delete peer.addr h.peers })
    else h

abbrev pub drop_packet : Hub → Hub
drop_packet h = count (λ m. record m { dropped = add m.dropped 1 }) h

-- `select { case peer.Send <- packet: … default: … }`.
pub send : Peer → Bytes → Hub → Hub × Bool
send peer packet h =
    if ltb (length (h.queues peer.id)) (h.capacity peer.id)
    then (
      record h { queues = λ i. if i == peer.id then h.queues i ++ packet ∷ [] else h.queues i },
      true,
    )
    else (drop_packet h, false)

pub dispatch : Hub → Addr → Bytes → Hub × Bool
dispatch h addr packet = elim (lookup addr h.peers) [
  | none ↦ (drop_packet h, false)
  | some peer ↦ send peer packet h
]

-- A session takes the oldest packet from its channel.
pub receive : Peer → Hub → Option (Bytes × Hub)
receive peer h = elim (h.queues peer.id) [
  | [] ↦ none
  | packet ∷ rest ↦
      some (packet, record h { queues = λ i. if i == peer.id then rest else h.queues i })
]

cancel_all : List (Addr × Peer) → Hub → Hub
cancel_all [] h = h
cancel_all ((a, p) ∷ ps) h = cancel_all ps (cancel p h)

pub close_all : Hub → Hub
unfolding cancel_all
close_all h = cancel_all h.peers h
