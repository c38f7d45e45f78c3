-- ===== src/Server/Writer.antt =====
-- internal/server/server.go: `writeLoop`, which takes packets from the channel of a session.
pub mod Delivery
mod Tests
use veilink.Prelude.{Bool, true, false, List, [], ◌∷◌, ◌++◌, Bytes, ok, err, panic, if◌then◌else◌}
use veilink.Server.{packet_frame}

-- What wakes the loop: the end of its context, a packet, with whether the write succeeds, or the
-- ticker, with whether the ping is answered.
pub data Wake : Type 0 where
  cancelled : Wake
  packet_ready ticked : Bool → Wake

-- What waits in the channel, and the frames that were written, both the oldest first.
pub record Outbox : Type 0 where
  pub waiting : List Bytes
  pub sent : List Bytes

abbrev pub write_packet : Bool → List Bytes → Outbox → Outbox × Bool
write_packet written [] o = (o, true)
write_packet written (packet ∷ rest) o = elim (packet_frame packet) [
  | ok frame ↦
      if written
      then (record { waiting = rest; sent = o.sent ++ frame ∷ [] }, true)
      else (record o { waiting = rest }, false)
  | err e ↦ (record o { waiting = rest }, false)
  | panic ↦ (record o { waiting = rest }, false)
]

-- A round, and whether the loop goes on. The loop does not wake for a packet where none waits.
unfoldable pub write_round : Wake → Outbox → Outbox × Bool
write_round cancelled o = (o, false)
write_round (packet_ready written) o = write_packet written o.waiting o
write_round (ticked answered) o = (o, answered)

unfoldable pub write_loop : List Wake → Outbox → Outbox × Bool
write_loop [] o = (o, true)
write_loop (w ∷ ws) o =
    let r = write_round w o in let rest = write_loop ws r.0 in if r.1 then rest else (r.0, false)
