-- ===== src/Protocol/Packet/Tests.antt =====
-- internal/protocol/control.go: an IPv4 header with no data.
use veilink.Prelude.{◌↔◌, ◌∷◌, [], Bytes, refl, ok, ◌≡◌}
use veilink.Netip.{Addr, v4}
use veilink.Protocol.Packet.{ipv4_source_destination}
use veilink.Protocol.Packet.Header.{IsPacket, source, destination, ipv4_exact}

abbrev packet : Bytes
packet = 69 ∷ 0 ∷ 0 ∷ 20 ∷ 0 ∷ 0 ∷ 0 ∷ 0 ∷ 64 ∷ 17 ∷ 0 ∷ 0 ∷ 10 ∷ 77 ∷ 0 ∷ 2 ∷ 8 ∷ 8 ∷ 4 ∷ 4 ∷ []

ipv4_run : ipv4_source_destination packet ≡ ok (v4 172818434, v4 134743044)
unfolding ipv4_source_destination
ipv4_run = refl

ipv4_exact_example : (ipv4_source_destination packet ≡ ok (source packet, destination packet)) ↔ (
    IsPacket packet
    × (◌≡◌ {A = Addr × Addr}
        (source packet, destination packet)
        (source packet, destination packet)))
ipv4_exact_example = ipv4_exact packet (source packet, destination packet)
