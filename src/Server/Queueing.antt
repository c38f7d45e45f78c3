-- ===== src/Server/Queueing.antt =====
-- internal/server/server.go: packets that the device gives for one session, in the queue of that
-- session.
use veilink.Prelude.{
  length-append, not, ltb_ℤ, ◌≡◌, ◌+◌, ◌≤◌, ◌<◌, ◌∙◌, ap, sym, refl, arith, pos, List, [], ◌∷◌,
  ◌++◌, map, length, take, some, false, All, IsBytes, Bytes, lookup,
}
use mathlib.Core.List.{append-nil, append_assoc}
use veilink.Netip.{Addr, addr_Eq}
use veilink.Core.Hub.{Peer}
use veilink.Core.Hub.Delivery.{dispatch_delivers, dispatch-Dispatched, dispatch-capacity}
use veilink.Protocol.Packet.Header.{IsPacket, destination, IsPacket-length, ipv4_of_IsPacket}
use veilink.Protocol.Frame.{max_packet_size}
use veilink.Device.{TunRead, bytes}
use veilink.Server.{Server, on_tun_read, on_packet, packet_loop, count_from_tun}

-- A read that gives the packet and no more.
abbrev pub whole : Bytes → TunRead
whole packet = bytes (pos (length packet)) packet

pub take-length : (s : Bytes) → take (length s) s ≡ s
take-length [] = refl
take-length (c ∷ s) = ap (λ t. c ∷ t) (take-length s)

on_tun_read-whole :
    (packet : Bytes) (s : Server)
    → IsBytes packet
    → IsPacket packet
    → on_tun_read (pos (length packet)) packet s ≡ on_packet packet s
unfolding on_tun_read
on_tun_read-whole packet s b h =
    let full = IsPacket-length packet b h in
    let least : 20 ≤ length packet = omega (arith, h.header_full, h.header_inside) in
    let some_bytes : not (ltb_ℤ (pos 0) (pos (length packet))) ≡ false = ground arith in
    let fits : ltb_ℤ (pos max_packet_size) (pos (length packet)) ≡ false = ground arith in
    rw (on_tun_read, some_bytes, fits) (ap (λ p. on_packet p s) (take-length packet))

-- What a packet for a session with room leaves.
record Queued (s : Server) (peer : Peer) (packet : Bytes) (s' : Server) : Type 0 where
  peers : s'.hub.peers ≡ s.hub.peers
  capacity : s'.hub.capacity ≡ s.hub.capacity
  queue : s'.hub.queues peer.id ≡ s.hub.queues peer.id ++ packet ∷ []

on_packet-Queued :
    (packet : Bytes) (s : Server) (peer : Peer)
    → IsPacket packet
    → lookup (destination packet) s.hub.peers ≡ some peer
    → length (s.hub.queues peer.id) < s.hub.capacity peer.id
    → Queued s peer packet (on_packet packet s)
unfolding on_packet
on_packet-Queued packet s peer h owner room =
    let d = dispatch-Dispatched (count_from_tun packet s).hub (destination packet) packet in
    let put =
      (dispatch_delivers (count_from_tun packet s).hub (destination packet) packet).1
        (peer, owner, room) in
    rw (ipv4_of_IsPacket packet h, on_packet)
      (record {
        peers = d.peers_kept;
        capacity = dispatch-capacity (count_from_tun packet s).hub (destination packet) packet;
        queue = (d.queued peer owner put).0;
      })

-- A packet for an address.
pub record IsFor (a : Addr) (packet : Bytes) : Type 0 where
  pub shape : IsPacket packet
  pub to : destination packet ≡ a

pub packet_loop_queues :
    (ps : List Bytes) (s : Server) (a : Addr) (peer : Peer)
    → All IsBytes ps
    → All (IsFor a) ps
    → lookup a s.hub.peers ≡ some peer
    → length (s.hub.queues peer.id) + length ps ≤ s.hub.capacity peer.id
    → (packet_loop (map whole ps) s).hub.queues peer.id ≡ s.hub.queues peer.id ++ ps
unfolding packet_loop
packet_loop_queues [] s a peer b h owner room = sym (append-nil (s.hub.queues peer.id))
packet_loop_queues (p ∷ ps) s a peer b h owner room =
    let s' = on_packet p s in
    let owner' : lookup (destination p) s.hub.peers ≡ some peer =
      ap (λ x. lookup x s.hub.peers) h.0.to ∙ owner in
    let q = on_packet-Queued p s peer h.0.shape owner' (omega arith) in
    let longer : length (s'.hub.queues peer.id) ≡ length (s.hub.queues peer.id) + 1 =
      ap length q.queue ∙ length-append _ _ in
    let room' : length (s'.hub.queues peer.id) + length ps ≤ s'.hub.capacity peer.id =
      omega (arith, ap (λ c. c peer.id) q.capacity) in
    rw (on_tun_read-whole p s b.0 h.0.shape) (
      packet_loop_queues ps s' a peer b.1 h.1 (ap (λ ps. lookup a ps) q.peers ∙ owner) room'
      ∙ ap (λ l. l ++ ps) q.queue
      ∙ append_assoc (s.hub.queues peer.id) (p ∷ []) ps)
