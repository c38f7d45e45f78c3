-- ===== src/Server/Writer/Tests.antt =====
-- internal/server/server.go: a write that fails.
use veilink.Prelude.{List, [], ◌∷◌, true, false}
use veilink.Server.Writer.{Wake, Outbox, packet_ready, ticked, write_loop}
use veilink.Server.Writer.Delivery.{Wrote, write_loop-Wrote}

abbrev wakes : List Wake
wakes = packet_ready true ∷ ticked true ∷ packet_ready false ∷ packet_ready true ∷ []

abbrev outbox : Outbox
outbox = record { waiting = (69 ∷ []) ∷ (70 ∷ []) ∷ (71 ∷ []) ∷ []; sent = [] }

write_loop-Wrote_example : Wrote outbox (write_loop wakes outbox)
write_loop-Wrote_example = write_loop-Wrote wakes outbox
