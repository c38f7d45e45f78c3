-- ===== src/Client.antt =====
-- internal/client/client.go: the client's handshake, and what it lets through in both directions. What
-- the network and the device give are arguments.
pub mod EndToEnd
pub mod Handshake
pub mod Agreement
pub mod Dialing
pub mod Reader
pub mod Replies
pub mod Writer
pub mod Run
pub mod Tests
use veilink.Prelude.{
  ◌==◌, ℕ, List, [], ◌∷◌, ◌++◌, ◌>>=◌, Option, none, some, true, false, Bool, ok, err, panic, Bytes,
  bytes_eq, not, ◌||◌, Result, ℤ, pos, pos_part, neg_part, ltb, ltb_ℤ, take, length, if◌then◌else◌,
}
use veilink.Netip.{Addr, addr_eq}
use veilink.Protocol.Frame.{
  max_packet_size, FrameError, Frame, encode, decode, type_hello, type_welcome, type_packet,
}
use veilink.Protocol.Packet.{ipv4_source_destination}
use veilink.Protocol.Control.{Hello, Welcome, Json, marshal_control, unmarshal_control}
use veilink.Encoding.Base64
use veilink.Config.{ClientConfig}
use veilink.Server.{Message}

pub data ClientError : Type 0 where
  dial_failed no_session_id hello_failed write_failed read_failed not_binary bad_welcome_frame
        bad_welcome inconsistent :
      ClientError

-- What `connect` meets: whether the dial and the write succeed, the random identifier, and the reply.
pub record Dial : Type 0 where
  pub dialed : Bool
  pub session_id : Option Bytes
  pub written : Bool
  pub reply : Message

-- What it gives: the welcome or an error, and whether it leaves a connection open.
pub record Connection : Type 0 where
  pub outcome : Result ClientError Welcome
  pub is_open : Bool

unfoldable pub hello_frame : Json Hello → ClientConfig → Bytes → Option Bytes
hello_frame j c id =
    elim (marshal_control j (record { client_name = c.name; session_id = id; mtu = c.mtu })) [
      | ok payload ↦ (elim (encode type_hello 0 payload) [
        | ok b ↦ some b
        | err e ↦ none
        | panic ↦ none
      ])
      | err e ↦ none
      | panic ↦ none
    ]

-- The tests on the reply, from the read to the consistent parameters.
pub check_welcome : Json Welcome → Bytes → Message → Result ClientError Welcome
check_welcome j id none = err read_failed
check_welcome j id (some (false, raw)) = err not_binary
check_welcome j id (some (true, raw)) = elim (decode raw) [
  | ok frame ↦
      if not (frame.typ == type_welcome)
      then err bad_welcome_frame
      else (elim (unmarshal_control j frame.payload) [
        | ok w ↦
            if not (bytes_eq w.session_id id) || (ltb_ℤ w.mtu (pos 576) || ltb_ℤ (pos 1500) w.mtu)
            then err inconsistent
            else ok w
        | err e ↦ err bad_welcome
        | panic ↦ panic
      ])
  | err e ↦ err bad_welcome_frame
  | panic ↦ panic
]

-- Every failure past the dial goes through `closeNowWithError`.
abbrev finish : Result ClientError Welcome → Connection
finish (ok w) = record { outcome = ok w; is_open = true }
finish (err e) = record { outcome = err e; is_open = false }
finish panic = record { outcome = panic; is_open = true }

pub connect : Json Hello → Json Welcome → ClientConfig → Dial → Connection
connect jh jw c d =
    if not d.dialed
    then record { outcome = err dial_failed; is_open = false }
    else (elim d.session_id [
      | none ↦ finish (err no_session_id)
      | some id ↦ (elim (hello_frame jh c id) [
        | none ↦ finish (err hello_failed)
        | some frame ↦
            if not d.written
            then finish (err write_failed)
            else finish (check_welcome jw id d.reply)
      ])
    ])

-- A round of `readTun` for a read of `n` bytes: what it puts in the queue. A count that is negative, or
-- past the buffer of `MaxPacketSize` bytes, is a slice out of range.
pub data Filtered : Type 0 where
  skipped crashed : Filtered
  queued : Bytes → Filtered

pub read_tun : Addr → ℤ → ℤ → Bytes → Filtered
read_tun assigned mtu n buf =
    if ltb_ℤ mtu n
    then skipped
    else if ltb_ℤ n (pos 0) || ltb_ℤ (pos max_packet_size) n
    then crashed
    else (elim (ipv4_source_destination (take (pos_part n) buf)) [
      | ok (src, dst) ↦
          if not (addr_eq src assigned) then skipped else queued (take (pos_part n) buf)
      | err e ↦ skipped
      | panic ↦ crashed
    ])

-- What the writing goroutine of `runSession` sends for a packet.
pub session_frame : Bytes → Result FrameError Bytes
session_frame packet = encode type_packet 0 packet

-- A round of the reading goroutine of `runSession`: the packets written to the device, and whether it
-- goes on. `written` is whether `WritePacket` succeeds.
pub on_reply : Addr → ℤ → Message → Bool → List Bytes → List Bytes × Bool
on_reply assigned mtu none written tun = (tun, false)
on_reply assigned mtu (some (false, raw)) written tun = (tun, false)
on_reply assigned mtu (some (true, raw)) written tun = elim (decode raw) [
  | ok frame ↦
      if not (frame.typ == type_packet) || ltb_ℤ mtu (pos (length frame.payload))
      then (tun, false)
      else (elim (ipv4_source_destination frame.payload) [
        | ok (src, dst) ↦
            if not (addr_eq dst assigned)
            then (tun, false)
            else if not written
            then (tun, false)
            else (tun ++ frame.payload ∷ [], true)
        | err e ↦ (tun, false)
        | panic ↦ (tun, false)
      ])
  | err e ↦ (tun, false)
  | panic ↦ (tun, false)
]

-- The goroutine, over what it reads; it ends by itself or with the list.
pub reply_loop : Addr → ℤ → List (Message × Bool) → List Bytes → List Bytes
reply_loop assigned mtu [] tun = tun
reply_loop assigned mtu ((m, written) ∷ ms) tun =
    let r = on_reply assigned mtu m written tun in
    let rest = reply_loop assigned mtu ms r.0 in if r.1 then rest else r.0

-- `randomSessionID`; the argument is what `rand.Read` gives for a buffer of 18 bytes.
unfoldable pub random_session_id : Option Bytes → Option Bytes
random_session_id none = none
random_session_id (some b) = some (Base64.encode_to_string b)
