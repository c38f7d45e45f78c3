-- ===== src/Client/EndToEnd.antt =====
-- internal/client/client.go with internal/server/server.go: what one side sends, the other takes.
use veilink.Prelude.{
  if◌then◌else◌, Result-cases, pos, ltb_ℤ, pos_part, List, IsBytes, ◌≤◌, take, length, ℤ, ◌∷◌, [],
  ◌++◌, ◌≡◌, refl, true, false, ok, inl, inr, some, Bytes, arith,
}
use veilink.Netip.{Addr, addr_eq_sound, addr_eq_refl}
use veilink.Protocol.Frame.{decode, type_packet, max_packet_size}
use veilink.Protocol.Frame.Codec.{encode_fits, header}
use veilink.Protocol.Frame.Roundtrip.{decode-encode}
use veilink.Protocol.Packet.{ipv4_source_destination}
use veilink.Protocol.Packet.Header.{
  IsPacket, source, destination, ipv4-IsPacket, ipv4_of_IsPacket, IsPacket-length,
}
use veilink.Server.{packet_frame, Server, Identity, on_message}
use veilink.Server.Spoofing.{on_message_exact}
use veilink.Client.{queued, read_tun, session_frame, on_reply}

pub read_tun-queued :
    (assigned : Addr) (mtu n : ℤ) (buf packet : Bytes)
    → read_tun assigned mtu n buf ≡ queued packet
    → (packet ≡ take (pos_part n) buf)
      × IsPacket packet
      × (source packet ≡ assigned)
      × (ltb_ℤ mtu n ≡ false)
      × (ltb_ℤ n (pos 0) ≡ false)
unfolding read_tun
read_tun-queued assigned mtu n buf packet e =
    elim (Result-cases (ipv4_source_destination (take (pos_part n) buf))) [
      | inl ((a, b), p) ↦
          let (shape, ends) = ipv4-IsPacket (take (pos_part n) buf) (a, b) p in
          let same : packet ≡ take (pos_part n) buf = ground (arith, p) in
          (
            same,
            rw same shape,
            rw same (ground (arith, p, ends, addr_eq_sound a assigned)),
            ground arith,
            ground arith,
          )
      | inr bad ↦ absurd (ground (arith, bad))
    ]

-- A packet of bytes within 65,535 has a frame.
framed :
    (packet : Bytes)
    → length packet ≤ max_packet_size
    → (raw : Bytes) × (session_frame packet ≡ ok raw)
      × (decode raw ≡ ok (record { typ = type_packet; flags = 0; payload = packet }))
unfolding session_frame
framed packet h =
    let e = encode_fits type_packet 0 packet refl h in
    (
      header type_packet 0 (length packet) ++ packet,
      e,
      decode-encode type_packet 0 packet (omega arith) e,
    )

-- A packet of bytes that the client takes from its device for the address that the server gave it,
-- and that is within the server's MTU, has a frame, and the server's read loop goes on after this
-- frame.
pub client_to_server :
    (id : Identity) (s : Server) (mtu n : ℤ) (buf packet : Bytes)
    → IsBytes packet
    → read_tun id.addr mtu n buf ≡ queued packet
    → ltb_ℤ s.config.mtu (pos (length packet)) ≡ false
    → (raw : Bytes) × (session_frame packet ≡ ok raw)
      × ((on_message id (some (true, raw)) true s).1 ≡ true)
client_to_server id s mtu n buf packet bytes q fits =
    let (taken, shape, own, short, sign) = read_tun-queued id.addr mtu n buf packet q in
    let (raw, sent, read) = framed packet (IsPacket-length packet bytes shape) in
    (
      raw,
      sent,
      (on_message_exact id (some (true, raw)) true s).1 (
        raw,
        packet,
        refl,
        record { flags = 0; framed = read; packet = shape; own = own; fits = fits },
        refl,
      ),
    )

-- A string of bytes that is an IPv4 packet to the client's address has a frame of the server; the
-- client, whose device takes the packet, writes it and goes on where it is within the client's MTU,
-- and else ends the session and writes nothing.
pub server_to_client :
    (assigned : Addr) (mtu : ℤ) (packet : Bytes) (tun : List Bytes)
    → IsBytes packet
    → IsPacket packet
    → destination packet ≡ assigned
    → (raw : Bytes) × (packet_frame packet ≡ ok raw)
      × (on_reply assigned mtu (some (true, raw)) true tun
          ≡ (if ltb_ℤ mtu (pos (length packet)) then (tun, false) else (tun ++ packet ∷ [], true)))
unfolding on_reply packet_frame
server_to_client assigned mtu packet tun bytes shape to =
    let (raw, sent, read) = framed packet (IsPacket-length packet bytes shape) in
    (
      raw,
      unfold session_frame in sent,
      ground (arith, read, ipv4_of_IsPacket packet shape, addr_eq_refl assigned, to),
    )
