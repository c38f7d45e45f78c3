-- ===== src/Client/Writer/Downstream.antt =====
-- internal/server/server.go and internal/client/client.go: from the device of the server to the one
-- of a client, through `packetLoop`, the registry, `writeLoop` and the reader of the session.
use veilink.Prelude.{
  ◌≡◌, ◌+◌, ◌≤◌, ◌∙◌, ap, arith, ℤ, List, [], ◌++◌, map, length, some, All, All-map, IsBytes, Bytes,
  lookup,
}
use veilink.Netip.{Addr, addr_Eq}
use veilink.Core.Hub.{Peer}
use veilink.Server.{Server, packet_loop}
use veilink.Server.Accepting.{arrive}
use veilink.Server.Queueing.{whole, IsFor, packet_loop_queues}
use veilink.Server.Writer.{Wake, write_loop}
use veilink.Server.Writer.Delivery.{AllWell, packets_ready}
use veilink.Client.{reply_loop}
use veilink.Client.Replies.{IsAddressed}
use veilink.Client.Writer.Delivery.{server_delivers}

-- Where a session with nothing in its queue owns an address, the device of the server gives packets
-- for that address that its channel has room for, no write and no ping fails and the write loop
-- wakes for a packet at least as often as there are packets, the client's reader writes all of them
-- to its device, in their order, if none is longer than its MTU.
pub device_to_device :
    (s : Server) (a : Addr) (peer : Peer) (mtu : ℤ) (ws : List Wake) (ps tun : List Bytes)
    → lookup a s.hub.peers ≡ some peer
    → s.hub.queues peer.id ≡ []
    → length ps ≤ s.hub.capacity peer.id
    → All IsBytes ps
    → All (IsAddressed a mtu) ps
    → AllWell ws
    → length ps ≤ packets_ready ws
    → reply_loop a mtu
        (map arrive
          (write_loop ws (record {
            waiting = (packet_loop (map whole ps) s).hub.queues peer.id;
            sent = [];
          })).0.sent)
        tun
      ≡ tun ++ ps
device_to_device s a peer mtu ws ps tun owner idle room b to well enough =
    let fits : length (s.hub.queues peer.id) + length ps ≤ s.hub.capacity peer.id =
      omega (arith, ap length idle) in
    let is_for = All-map _ (IsFor a) ps (λ p h. record { shape = h.shape; to = h.to }) to in
    let queue : (packet_loop (map whole ps) s).hub.queues peer.id ≡ ps =
      packet_loop_queues ps s a peer b is_for owner fits ∙ ap (λ l. l ++ ps) idle in
    rw queue (server_delivers a mtu ws ps tun well enough b to)
