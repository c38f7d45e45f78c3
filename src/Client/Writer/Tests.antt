-- ===== src/Client/Writer/Tests.antt =====
-- internal/client/client.go: two packets that wait, each way.
use veilink.Prelude.{
  ◌≡◌, refl, arith, List, [], ◌∷◌, ◌++◌, map, pos, some, lookup, true, false, IsBytes,
}
use veilink.Server.{packet_loop, Server}
use veilink.Server.Accepting.{arrive}
use veilink.Server.Writer.{Wake, packet_ready, ticked, write_loop}
use veilink.Client.{reply_loop}
use veilink.Client.Writer.Downstream.{device_to_device}
use veilink.Core.Hub.{Peer}
use veilink.Metrics.{zero_counters}
use veilink.Server.Queueing.{whole}
use veilink.Netip.{addr_Eq}
use veilink.Client.Tests.{identity, outward, inward, inward_shape}
use veilink.Server.Tests.{server}

abbrev wakes : List Wake
wakes = packet_ready true ∷ ticked true ∷ packet_ready true ∷ []

inward-IsBytes : IsBytes inward
inward-IsBytes = omega arith

outward-IsBytes : IsBytes outward
outward-IsBytes = omega arith

-- The registry of the server with one session in it.
abbrev session : Peer
session = record { id = 1; name = []; addr = identity.addr }

abbrev joined : Server
joined = record server {
  hub = record {
    peers = (identity.addr, session) ∷ [];
    metrics = zero_counters;
    max_peers = 256;
    queues = λ i. [];
    capacity = λ i. 256;
    cancelled = λ i. false;
  };
}

session_owns : lookup identity.addr joined.hub.peers ≡ some session
unfolding lookup
session_owns = refl

device_to_device_example :
    reply_loop identity.addr
      (pos 1280)
      (map arrive
        (write_loop wakes (record {
          waiting = (packet_loop (map whole (inward ∷ inward ∷ [])) joined).hub.queues 1;
          sent = [];
        })).0.sent)
      []
    ≡ [] ++ inward ∷ inward ∷ []
device_to_device_example =
    device_to_device joined identity.addr session (pos 1280) wakes (inward ∷ inward ∷ []) []
      session_owns refl (omega arith) (inward-IsBytes, (inward-IsBytes, tt))
      (
        record { shape = inward_shape; to = refl; fits = refl },
        (record { shape = inward_shape; to = refl; fits = refl }, tt),
      )
      (refl, (refl, (refl, tt))) (omega arith)
