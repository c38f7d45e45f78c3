-- ===== src/Server/Accepting.antt =====
-- internal/server/server.go: the read loop takes every frame of a client that keeps to the rules.
use veilink.Prelude.{
  ◌≡◌, ◌∙◌, ap, sym, arith, Bool, true, List, [], ◌∷◌, ◌++◌, map, Bytes, some, ok, All,
}
use mathlib.Core.List.{append-nil, append_assoc}
use veilink.Netip.{addr_eq_refl}
use veilink.Protocol.Frame.{decode, type_packet}
use veilink.Protocol.Packet.Header.{ipv4_of_IsPacket}
use veilink.Server.{Server, Identity, Message, on_message, read_loop}
use veilink.Server.Spoofing.{IsOwn, on_message-config}
use veilink.Server.Writer.Delivery.{Hold}

-- A binary message that arrives, where the device takes what it holds.
abbrev pub arrive : Bytes → Message × Bool
arrive raw = (some (true, raw), true)

on_message_takes :
    (id : Identity) (raw payload : Bytes) (s : Server)
    → decode raw ≡ ok (record { typ = type_packet; flags = 0; payload = payload })
    → IsOwn s.config.mtu id payload
    → ((on_message id (some (true, raw)) true s).1 ≡ true)
      × ((on_message id (some (true, raw)) true s).0.tun ≡ s.tun ++ payload ∷ [])
unfolding on_message
on_message_takes id raw payload s framed h = (
  ground (arith, framed, ipv4_of_IsPacket payload h.packet, h.own, h.fits, addr_eq_refl id.addr),
  ground (arith, framed, ipv4_of_IsPacket payload h.packet, h.own, h.fits, addr_eq_refl id.addr),
)

pub read_loop_takes :
    (id : Identity) (raws ps : List Bytes) (s : Server)
    → Hold raws ps
    → All (IsOwn s.config.mtu id) ps
    → (read_loop id (map arrive raws) s).tun ≡ s.tun ++ ps
unfolding read_loop
read_loop_takes id [] [] s h own = sym (append-nil s.tun)
read_loop_takes id [] (p ∷ ps) s h own = absurd h
read_loop_takes id (raw ∷ raws) [] s h own = absurd h
read_loop_takes id (raw ∷ raws) (p ∷ ps) s h own =
    let (goes_on, put) = on_message_takes id raw p s h.0 own.0 in
    let s' = (on_message id (some (true, raw)) true s).0 in
    let own' : All (IsOwn s'.config.mtu id) ps =
      rw (on_message-config id (some (true, raw)) true s) own.1 in
    rw goes_on (
      read_loop_takes id raws ps s' h.1 own'
      ∙ ap (λ t. t ++ ps) put
      ∙ append_assoc s.tun (p ∷ []) ps)
