-- ===== src/Client/Reader/Tests.antt =====
-- internal/client/client.go: a device that gives a packet with stale bytes behind it.
use veilink.Prelude.{
  Bool, ◌≡◌, refl, arith, List, [], ◌∷◌, ◌++◌, map, pos, some, true, IsBytes, Bytes, All,
}
use veilink.Device.{TunReturn, failed, filled}
use veilink.Server.{read_loop}
use veilink.Server.Accepting.{arrive}
use veilink.Server.Tests.{server}
use veilink.Server.Writer.{Wake, packet_ready, ticked}
use veilink.Client.Tests.{identity, outward, outward_shape, inward}
use veilink.Client.Reader.{tun_loop}
use veilink.Client.Reader.Upstream.{IsFrom, one_packet, tun_loop-IsFrom, device_to_server}
use veilink.Client.Writer.{session_loop}

abbrev wakes : List Wake
wakes = packet_ready true ∷ ticked true ∷ packet_ready true ∷ []

abbrev reads : List (Bytes × Bytes)
reads = (outward, inward) ∷ (outward, []) ∷ []

outward-IsBytes : IsBytes outward
outward-IsBytes = omega arith

device_to_server_example :
    (outbound : List Bytes) × (tun_loop identity.addr (pos 1280) (map one_packet reads) []
      ≡ some outbound)
    × ((read_loop identity
          (map arrive (session_loop wakes (record { waiting = outbound; sent = [] })).0.sent)
          server).tun
        ≡ server.tun ++ outward ∷ outward ∷ [])
device_to_server_example =
    device_to_server identity (pos 1280) server wakes reads refl
      (outward-IsBytes, (outward-IsBytes, tt))
      (
        record { packet = outward_shape; own = refl; fits = refl },
        (record { packet = outward_shape; own = refl; fits = refl }, tt),
      )
      (refl, (refl, (refl, tt))) (omega arith)

-- A packet, one that is not from the address, and an error.
abbrev returns : List (TunReturn × Bool)
returns =
    (filled (pos 1) (pos 20) outward, true)
    ∷ (filled (pos 1) (pos 20) inward, true)
    ∷ (failed, true)
    ∷ []

tun_loop-IsFrom_example :
    (new : List Bytes) × (tun_loop identity.addr (pos 1280) returns [] ≡ some ([] ++ new))
    × All (IsFrom identity.addr (pos 1280)) new
tun_loop-IsFrom_example =
    tun_loop-IsFrom identity.addr (pos 1280) returns [] refl (refl, (refl, (tt, tt)))
