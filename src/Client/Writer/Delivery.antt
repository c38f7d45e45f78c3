-- ===== src/Client/Writer/Delivery.antt =====
-- internal/client/client.go with internal/server/server.go: while nothing fails, what waits on one side
-- is written to the device on the other, all of it and in order.
use veilink.Prelude.{
  ◌≡◌, ◌≤◌, ◌∙◌, sym, refl, arith, Bool, true, List, [], ◌∷◌, ◌++◌, map, Bytes, some, ok, All,
  All-map, length, ℤ, IsBytes,
}
use mathlib.Core.List.{append-nil, append_assoc}
use veilink.Netip.{Addr, addr_eq_refl}
use veilink.Protocol.Frame.{decode, type_packet, max_packet_size}
use veilink.Protocol.Packet.Header.{IsPacket, ipv4_of_IsPacket, IsPacket-length}
use veilink.Server.{Server, Identity, packet_frame, read_loop}
use veilink.Server.Spoofing.{IsOwn}
use veilink.Server.Accepting.{arrive, read_loop_takes}
use veilink.Server.Writer.{
  Wake, cancelled, packet_ready, ticked, Outbox, write_packet, write_round, write_loop,
}
use veilink.Server.Writer.Delivery.{Hold, AllWell, packets_ready, write_loop_flushes}
use veilink.Client.{session_frame, on_reply, reply_loop}
use veilink.Client.Replies.{IsAddressed}
use veilink.Client.Writer.{write_outbound, session_round, session_loop}

same_frame : (packet : Bytes) → session_frame packet ≡ packet_frame packet
unfolding session_frame packet_frame
same_frame packet = refl

same_packet : (b : Bool) (q : List Bytes) (o : Outbox) → write_outbound b q o ≡ write_packet b q o
same_packet b [] o = refl
same_packet b (packet ∷ rest) o = ground (arith, same_frame packet)

same_round : (w : Wake) (o : Outbox) → session_round w o ≡ write_round w o
unfolding session_round write_round
same_round cancelled o = refl
same_round (packet_ready b) o = same_packet b o.waiting o
same_round (ticked b) o = refl

-- Woken in the same way, the writer of the client's session and the write loop of the server send
-- the same frames, leave the same packets and go on or end alike.
pub session_loop-write_loop : (ws : List Wake) (o : Outbox) → session_loop ws o ≡ write_loop ws o
unfolding session_loop write_loop
session_loop-write_loop [] o = refl
session_loop-write_loop (w ∷ ws) o =
    rw (same_round w o, session_loop-write_loop ws (write_round w o).0) refl

-- The reader of the client takes each frame with a packet for it.
on_reply_takes :
    (assigned : Addr) (mtu : ℤ) (raw packet : Bytes) (tun : List Bytes)
    → decode raw ≡ ok (record { typ = type_packet; flags = 0; payload = packet })
    → IsAddressed assigned mtu packet
    → on_reply assigned mtu (some (true, raw)) true tun ≡ (tun ++ packet ∷ [], true)
unfolding on_reply
on_reply_takes assigned mtu raw packet tun framed h =
    ground (arith, framed, ipv4_of_IsPacket packet h.shape, addr_eq_refl assigned, h.to, h.fits)

reply_loop_takes :
    (assigned : Addr) (mtu : ℤ) (raws ps tun : List Bytes)
    → Hold raws ps
    → All (IsAddressed assigned mtu) ps
    → reply_loop assigned mtu (map arrive raws) tun ≡ tun ++ ps
unfolding reply_loop
reply_loop_takes assigned mtu [] [] tun h to = sym (append-nil tun)
reply_loop_takes assigned mtu [] (p ∷ ps) tun h to = absurd h
reply_loop_takes assigned mtu (raw ∷ raws) [] tun h to = absurd h
reply_loop_takes assigned mtu (raw ∷ raws) (p ∷ ps) tun h to =
    rw (on_reply_takes assigned mtu raw p tun h.0 to.0) (
      reply_loop_takes assigned mtu raws ps (tun ++ p ∷ []) h.1 to.1 ∙ append_assoc tun (p ∷ []) ps)

packets_fit :
    (ps : List Bytes) → All IsBytes ps → All IsPacket ps → All (λ p. length p ≤ max_packet_size) ps
packets_fit [] b h = tt
packets_fit (p ∷ ps) b h = (IsPacket-length p b.0 h.0, packets_fit ps b.1 h.1)

-- Where no write and no ping of the server fails and it wakes for a packet at least as often as
-- packets wait, the client's reader writes all of the waiting packets to its device, in their
-- order, if they are packets for its address and no longer than its MTU.
pub server_delivers :
    (assigned : Addr) (mtu : ℤ) (ws : List Wake) (queue tun : List Bytes)
    → AllWell ws
    → length queue ≤ packets_ready ws
    → All IsBytes queue
    → All (IsAddressed assigned mtu) queue
    → reply_loop assigned mtu
        (map arrive (write_loop ws (record { waiting = queue; sent = [] })).0.sent)
        tun
      ≡ tun ++ queue
server_delivers assigned mtu ws queue tun well enough bytes to =
    let o : Outbox = record { waiting = queue; sent = [] } in
    let fit = packets_fit queue bytes (All-map _ _ queue (λ p h. h.shape) to) in
    let (frames, sent, hold) = write_loop_flushes ws o well enough fit in
    rw sent (reply_loop_takes assigned mtu frames queue tun hold to)

-- Where no write and no ping of the client fails and it wakes for a packet at least as often as
-- packets wait, the server's read loop writes all of the waiting packets to its device, in their
-- order, if they have the source address of the identity and are no longer than the configured MTU.
pub client_delivers :
    (id : Identity) (s : Server) (ws : List Wake) (queue : List Bytes)
    → AllWell ws
    → length queue ≤ packets_ready ws
    → All IsBytes queue
    → All (IsOwn s.config.mtu id) queue
    → (read_loop id
        (map arrive (session_loop ws (record { waiting = queue; sent = [] })).0.sent)
        s).tun
      ≡ s.tun ++ queue
client_delivers id s ws queue well enough bytes own =
    let o : Outbox = record { waiting = queue; sent = [] } in
    let fit = packets_fit queue bytes (All-map _ _ queue (λ p h. h.packet) own) in
    let (frames, sent, hold) = write_loop_flushes ws o well enough fit in
    rw (session_loop-write_loop ws o, sent) (read_loop_takes id frames queue s hold own)
