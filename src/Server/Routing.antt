-- ===== src/Server/Routing.antt =====
-- internal/server/server.go: where `packetLoop` puts the packets that it reads from the device.
use veilink.Prelude.{
  arith, List, All, All-map, sym, pos_part, ℤ, ◌||◌, pos, ltb_ℤ, not, pos_part, take, ap, ℤ, ◌∙◌,
  sym, ℕ, ◌∷◌, [], ◌++◌, ◌≡◌, ◌⊎◌, inl, inr, refl, some, ok, Bytes, Bool-cases, Result-cases,
  lookup,
}
use native.Mathlib.Decide.{ℕ_discrete}
use veilink.Netip.{Addr, addr_Eq}
use veilink.Protocol.Packet.{ipv4_source_destination}
use veilink.Protocol.Packet.Header.{IsPacket, source, destination, ipv4-IsPacket, ipv4-ne-panic}
use veilink.Core.Hub.{Hub, Peer, dispatch}
use veilink.Core.Hub.Delivery.{dispatch-Dispatched, dispatch_delivers}
use mathlib.Core.List.{append-nil, append_assoc}
use veilink.Device.{TunRead, fault, bytes}
use veilink.Server.{
  packet_loop, max_packet_size, Server, on_packet, on_tun_read, count_invalid, count_from_tun,
}

-- What one packet does to one queue: nothing, or, for an IPv4 packet, the queue of the peer that owns
-- its destination gets it at the end.
abbrev pub Routed : Bytes → Server → ℕ → Server → Type 0
Routed packet s i s' =
    (s'.hub.queues i ≡ s.hub.queues i)
    ⊎ ((p : Peer) × IsPacket packet
        × (lookup (destination packet) s.hub.peers ≡ some p)
        × (p.id ≡ i)
        × (s'.hub.queues i ≡ s.hub.queues i ++ packet ∷ []))

dispatch_routes :
    (h : Hub) (a : Addr) (packet : Bytes) (i : ℕ)
    → ((dispatch h a packet).0.queues i ≡ h.queues i)
      ⊎ ((p : Peer) × (lookup a h.peers ≡ some p)
          × (p.id ≡ i)
          × ((dispatch h a packet).0.queues i ≡ h.queues i ++ packet ∷ []))
dispatch_routes h a packet i =
    let d = dispatch-Dispatched h a packet in
    elim (Bool-cases (dispatch h a packet).1) [
      | inr lost ↦ inl (rw (d.lost lost).0 refl)
      | inl done ↦
          let (p, owner, room) = (dispatch_delivers h a packet).0 done in
          let (mine, others, counters) = d.queued p owner done in
          elim (ℕ_discrete i p.id) [
            | yes same ↦ inr (p, owner, sym same, rw same mine)
            | no other ↦ inl (others i other)
          ]
    ]

pub on_packet_routes :
    (packet : Bytes) (s : Server) (i : ℕ) → Routed packet s i (on_packet packet s)
unfolding on_packet
on_packet_routes packet s i = elim (Result-cases (ipv4_source_destination packet)) [
  | inl ((a, b), e) ↦
      let (shape, ends) = ipv4-IsPacket packet (a, b) e in
      let e' : ipv4_source_destination packet ≡ ok (source packet, destination packet) =
        e ∙ ap ok ends in
      rw (e', on_packet)
        (elim (dispatch_routes (count_from_tun packet s).hub (destination packet) packet i) [
          | inl kept ↦ inl kept
          | inr (p, owner, is, put) ↦ inr (p, shape, owner, is, put)
        ])
  | inr (inl (x, e)) ↦ rw (e, on_packet) (inl refl)
  | inr (inr e) ↦ rw (e, on_packet) (inl refl)
]

-- A round of the loop: a count that is not positive or past the buffer is counted as invalid and
-- routes nothing, any other routes the bytes read.
pub on_tun_read_routes :
    (n : ℤ) (buf : Bytes) (s : Server) (i : ℕ)
    → Routed (take (pos_part n) buf) s i (on_tun_read n buf s)
unfolding on_tun_read
on_tun_read_routes n buf s i =
    elim (Bool-cases (not (ltb_ℤ (pos 0) n) || ltb_ℤ (pos max_packet_size) n)) [
      | inl bad ↦ rw bad (inl refl)
      | inr good ↦ rw good (on_packet_routes (take (pos_part n) buf) s i)
    ]

-- A packet from the device that is not an IPv4 packet of its own length is counted as invalid, and
-- nothing else changes.
pub on_packet_invalid :
    (packet : Bytes) (s : Server) → ¬ IsPacket packet → on_packet packet s ≡ count_invalid s
unfolding on_packet
on_packet_invalid packet s bad = elim (Result-cases (ipv4_source_destination packet)) [
  | inl (r, e) ↦ absurd (bad (ipv4-IsPacket packet r e).0)
  | inr (inl (x, e)) ↦ rw (e, on_packet)
  | inr (inr e) ↦ absurd (ipv4-ne-panic packet e)
]

-- An IPv4 packet whose destination a peer with this pointer owns.
pub record IsRouted (h : Hub) (i : ℕ) (packet : Bytes) : Type 0 where
  pub shape : IsPacket packet
  pub owner : Peer
  pub owns : lookup (destination packet) h.peers ≡ some owner
  pub pointer : owner.id ≡ i

on_tun_read-peers :
    (n : ℤ) (buf : Bytes) (s : Server) → (on_tun_read n buf s).hub.peers ≡ s.hub.peers
unfolding on_tun_read on_packet
on_tun_read-peers n buf s = elim (Result-cases (ipv4_source_destination (take (pos_part n) buf))) [
  | inl ((a, b), e) ↦ ground (
    arith,
    e,
    (dispatch-Dispatched (count_from_tun (take (pos_part n) buf) s).hub b
        (take (pos_part n) buf)).peers_kept,
  )
  | inr (inl (x, e)) ↦ ground (arith, e)
  | inr (inr e) ↦ ground (arith, e)
]

-- Whatever `packetLoop` reads from the device, what it adds to a queue, at its end, are IPv4
-- packets whose destination has, in the registry, the peer of that queue as its owner.
pub packet_loop-IsRouted :
    (rs : List TunRead) (s : Server) (i : ℕ)
    → (new : List Bytes) × ((packet_loop rs s).hub.queues i ≡ s.hub.queues i ++ new)
      × All (IsRouted s.hub i) new
unfolding packet_loop
packet_loop-IsRouted [] s i = ([], sym (append-nil _), tt)
packet_loop-IsRouted (fault ∷ rs) s i = ([], sym (append-nil _), tt)
packet_loop-IsRouted (bytes n buf ∷ rs) s i =
    let (new, put, routed) = packet_loop-IsRouted rs (on_tun_read n buf s) i in
    let routed' : All (IsRouted s.hub i) new =
      All-map _ _ new
        (λ x r. record {
          shape = r.shape;
          owner = r.owner;
          owns = rw (← on_tun_read-peers n buf s) (r.owns);
          pointer = r.pointer;
        })
        routed in
    elim (on_tun_read_routes n buf s i) [
      | inl kept ↦ (new, put ∙ rw kept refl, routed')
      | inr (p, shape, owns, is, more) ↦ (
        take (pos_part n) buf ∷ new,
        put ∙ rw more (append_assoc (s.hub.queues i) (take (pos_part n) buf ∷ []) new),
        (record { shape = shape; owner = p; owns = owns; pointer = is }, routed'),
      )
    ]
