-- ===== src/Server.antt =====
-- internal/server/server.go: the server. Its goroutines are cut in the steps that they make between
-- waiting for a message, a packet or a tick; what they wait for is an argument. The counters, which
-- the hub and the server share, are those of the hub.
pub mod Handshake
pub mod Spoofing
pub mod Authentication
pub mod Routing
pub mod Writer
pub mod Lifecycle
pub mod Pages
pub mod Accepting
pub mod Queueing
pub mod Tests
use veilink.Prelude.{
  take, ℤ, ◌++◌, length, pos, ltb_ℤ, ◌||◌, ◌==◌, pos_part, List, [], ◌∷◌, ◌>>=◌, Option, none, some,
  true, false, ok, err, panic, bytes_Eq, Bytes, lookup, insert, lookup, none, has_prefix, not, err,
  insert, false, if◌then◌else◌, codes, ◌∷◌, ok, Bool, Option, Result, List, Bytes, ℕ,
}
use veilink.Netip.{Addr, addr_eq}
use veilink.Metrics.{Counters, add, zero_counters}
use veilink.Protocol.Frame.{encode, max_packet_size, FrameError, decode, type_packet}
use veilink.Protocol.Packet.{ipv4_source_destination}
use veilink.Device.{TunRead, fault, bytes}
use veilink.Auth.{Digest, parse_hash, trim_prefix}
use veilink.Config.{ServerConfig, ServerClient, Readers}
use veilink.Config.Validate.{validate_server, or_invalid}
use veilink.Core.Hub.{dispatch, Hub, new_hub, count}

pub record Identity : Type 0 where
  pub name : Bytes
  pub addr : Addr

pub record Server : Type 0 where
  pub config : ServerConfig
  pub hub : Hub
  pub ident : List (Bytes × Identity)
  pub tun : List Bytes  -- what was written to the device, oldest first

pub data ServerError : Type 0 where
  bad_config bad_hash : ServerError

-- The loop of `New` over the clients.
unfoldable pub identities :
    Readers
    → List (Bytes × Identity)
    → List ServerClient
    → Result ServerError (List (Bytes × Identity))
identities r m [] = ok m
identities r m (c ∷ cs) = elim (parse_hash c.token_sha256) [
  | ok sum ↦
      identities r
        (insert sum (record { name = c.name; addr = or_invalid (r.parse_addr c.address) }) m) cs
  | err e ↦ err bad_hash
  | panic ↦ panic
]

-- `capacity` is that of the channels that `tunnel` makes.
pub new_server : Readers → (ℕ → ℕ) → ServerConfig → Result ServerError Server
new_server r capacity c = elim (validate_server r c) [
  | e ∷ es ↦ err bad_config
  | [] ↦ do
    ident ← identities r [] c.clients
    ok (record {
      config = c;
      hub = new_hub capacity zero_counters (pos_part c.max_clients);
      ident = ident;
      tun = [];
    })
]

abbrev pub bearer : Bytes
bearer = codes "Bearer "

-- The argument is the `Authorization` header, empty where there is none.
unfoldable pub authenticate : Digest → Server → Bytes → Option Identity
authenticate d s header =
    if not (has_prefix header bearer)
    then none
    else lookup (d.sum_256 (trim_prefix header bearer)) s.ident

-- A message of the connection: `none` is an error of the read, else whether it is binary, and its
-- bytes.
abbrev pub Message : Type 0
Message = Option (Bool × Bytes)

abbrev pub on_metrics : (Counters → Counters) → Server → Server
on_metrics f s = record s { hub = count f s.hub }

abbrev pub count_invalid : Server → Server
count_invalid = on_metrics (λ m. record m { invalid = add m.invalid 1 })

-- One round of the loop that reads from the client: the new state, and whether the loop goes on.
-- `written` is whether `WritePacket` succeeds. The readers of frames and packets do not panic, as
-- `decode-ne-panic` and `ipv4-ne-panic` show; those cases stand for nothing.
pub on_message : Identity → Message → Bool → Server → Server × Bool
on_message id none written s = (s, false)
on_message id (some (false, raw)) written s = (s, false)
on_message id (some (true, raw)) written s = elim (decode raw) [
  | ok frame ↦
      if not (frame.typ == type_packet)
      then (count_invalid s, false)
      else (elim (ipv4_source_destination frame.payload) [
        | ok (src, dst) ↦
            if not (addr_eq src id.addr) || ltb_ℤ s.config.mtu (pos (length frame.payload))
            then (count_invalid s, false)
            else if not written
            then (s, false)
            else (
              on_metrics
                  (λ m. record m {
                    packets_to_tun = add m.packets_to_tun 1;
                    bytes_to_tun = add m.bytes_to_tun (length frame.payload);
                  })
                  (record s { tun = s.tun ++ frame.payload ∷ [] }),
              true,
            )
        | err e ↦ (count_invalid s, false)
        | panic ↦ (s, false)
      ])
  | err e ↦ (count_invalid s, false)
  | panic ↦ (s, false)
]

-- The loop, over what it reads; it ends by itself or with the list.
pub read_loop : Identity → List (Message × Bool) → Server → Server
read_loop id [] s = s
read_loop id ((m, written) ∷ ms) s =
    let r = on_message id m written s in let rest = read_loop id ms r.0 in if r.1 then rest else r.0

abbrev pub count_from_tun : Bytes → Server → Server
count_from_tun packet = on_metrics (λ m. record m {
  packets_from_tun = add m.packets_from_tun 1;
  bytes_from_tun = add m.bytes_from_tun (length packet);
})

-- One packet of the loop over the device.
pub on_packet : Bytes → Server → Server
on_packet packet s = elim (ipv4_source_destination packet) [
  | ok (src, dst) ↦
      let s' = count_from_tun packet s in record s' { hub = (dispatch s'.hub dst packet).0 }
  | err e ↦ count_invalid s
  | panic ↦ s
]

-- A round of `packetLoop`; the buffer has `MaxPacketSize` bytes.
pub on_tun_read : ℤ → Bytes → Server → Server
unfolding on_packet
on_tun_read n buf s =
    if not (ltb_ℤ (pos 0) n) || ltb_ℤ (pos max_packet_size) n
    then count_invalid s
    else on_packet (take (pos_part n) buf) s

-- `packetLoop`, over what it reads, up to the first error.
pub packet_loop : List TunRead → Server → Server
packet_loop [] s = s
packet_loop (fault ∷ rs) s = s
packet_loop (bytes n buf ∷ rs) s = packet_loop rs (on_tun_read n buf s)

-- What `writeLoop` sends for a packet that it takes from the channel.
unfoldable pub packet_frame : Bytes → Result FrameError Bytes
packet_frame packet = encode type_packet 0 packet
