-- ===== src/Core/Hub/Delivery.antt =====
-- internal/core/hub.go: what `Dispatch` delivers.
use veilink.Prelude.{
  ℕ, ◌<◌, ◌≡◌, ◌↔◌, ◌≢◌, inl, inr, Bool, true, false, [], ◌∷◌, ◌++◌, some, arith, Option-cases,
  length, Bytes, lookup,
}
use veilink.Metrics.{add}
use veilink.Netip.{Addr, addr_Eq}
use veilink.Core.Hub.{Hub, Peer, send, dispatch}

-- `Dispatch` reports success if and only if a peer owns the address and its queue has room.
pub dispatch_delivers :
    (h : Hub) (a : Addr) (packet : Bytes)
    → ((dispatch h a packet).1 ≡ true)
      ↔ ((p : Peer) × (lookup a h.peers ≡ some p) × (length (h.queues p.id) < h.capacity p.id))
unfolding dispatch send
dispatch_delivers h a packet = (λ e. delivered e, λ w. ground (arith, w.1, w.2))
  where
    delivered :
        (dispatch h a packet).1 ≡ true
        → (p : Peer) × (lookup a h.peers ≡ some p) × (length (h.queues p.id) < h.capacity p.id)
    delivered e = elim (Option-cases (lookup a h.peers)) [
      | inl n ↦ ground (arith, n)
      | inr (p, q) ↦ (p, q, ground (arith, q))
    ]

-- What a packet changes: on success the owner's queue ends in it, on failure one drop is counted.
-- The registry and the other queues are as they were.
pub record Dispatched (h : Hub) (a : Addr) (packet : Bytes) (h' : Hub) (done : Bool) : Type 0 where
  pub peers_kept : h'.peers ≡ h.peers
  pub queued :
      (p : Peer)
      → lookup a h.peers ≡ some p
      → done ≡ true
      → (h'.queues p.id ≡ h.queues p.id ++ packet ∷ [])
        × ((i : ℕ) → i ≢ p.id → h'.queues i ≡ h.queues i)
        × (h'.metrics ≡ h.metrics)
  pub lost :
      done ≡ false
      → (h'.queues ≡ h.queues)
        × (h'.metrics ≡ record (h.metrics) { dropped = add h.metrics.dropped 1 })

dispatch_queued :
    (h : Hub) (a : Addr) (packet : Bytes) (p : Peer)
    → lookup a h.peers ≡ some p
    → (dispatch h a packet).1 ≡ true
    → ((dispatch h a packet).0.queues p.id ≡ h.queues p.id ++ packet ∷ [])
      × ((i : ℕ) → i ≢ p.id → (dispatch h a packet).0.queues i ≡ h.queues i)
      × ((dispatch h a packet).0.metrics ≡ h.metrics)
unfolding dispatch send
dispatch_queued h a packet p e d = (ground (arith, e), λ i ne. ground (arith, e), ground (arith, e))

dispatch_lost :
    (h : Hub) (a : Addr) (packet : Bytes)
    → (dispatch h a packet).1 ≡ false
    → ((dispatch h a packet).0.queues ≡ h.queues)
      × ((dispatch h a packet).0.metrics ≡ record (h.metrics) { dropped = add h.metrics.dropped 1 })
unfolding dispatch send
dispatch_lost h a packet d = ground arith

dispatch_peers : (h : Hub) (a : Addr) (packet : Bytes) → (dispatch h a packet).0.peers ≡ h.peers
unfolding dispatch send
dispatch_peers h a packet = ground arith

-- `Dispatch` keeps the registry; on success the packet stands at the end of the owner's queue, and
-- the other queues and the counters are as they were; on failure the queues are as they were and
-- one drop is counted.
pub dispatch-Dispatched :
    (h : Hub) (a : Addr) (packet : Bytes)
    → Dispatched h a packet (dispatch h a packet).0 (dispatch h a packet).1
dispatch-Dispatched h a packet = record {
  peers_kept = dispatch_peers h a packet;
  queued = dispatch_queued h a packet;
  lost = dispatch_lost h a packet;
}

pub dispatch-capacity :
    (h : Hub) (a : Addr) (packet : Bytes) → (dispatch h a packet).0.capacity ≡ h.capacity
unfolding dispatch send
dispatch-capacity h a packet = elim (Option-cases (lookup a h.peers)) [
  | inl n ↦ ground (arith, n)
  | inr (p, q) ↦ ground (arith, q)
]
