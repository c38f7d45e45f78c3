-- ===== src/Client/Writer.antt =====
-- internal/client/client.go: the goroutine of `runSession` that writes, over what wakes it. It takes
-- packets from the channel `outbound`, which outlives the session.
pub mod Delivery
pub mod Downstream
mod Tests
use veilink.Prelude.{Bool, true, false, List, [], ◌∷◌, ◌++◌, Bytes, ok, err, panic, if◌then◌else◌}
use veilink.Server.Writer.{Wake, cancelled, packet_ready, ticked, Outbox}
use veilink.Client.{session_frame}

abbrev pub write_outbound : Bool → List Bytes → Outbox → Outbox × Bool
write_outbound written [] o = (o, true)
write_outbound written (packet ∷ rest) o = elim (session_frame packet) [
  | ok frame ↦
      if written
      then (record { waiting = rest; sent = o.sent ++ frame ∷ [] }, true)
      else (record o { waiting = rest }, false)
  | err e ↦ (record o { waiting = rest }, false)
  | panic ↦ (record o { waiting = rest }, false)
]

pub session_round : Wake → Outbox → Outbox × Bool
session_round cancelled o = (o, false)
session_round (packet_ready written) o = write_outbound written o.waiting o
session_round (ticked answered) o = (o, answered)

pub session_loop : List Wake → Outbox → Outbox × Bool
session_loop [] o = (o, true)
session_loop (w ∷ ws) o =
    let r = session_round w o in
    let rest = session_loop ws r.0 in if r.1 then rest else (r.0, false)
