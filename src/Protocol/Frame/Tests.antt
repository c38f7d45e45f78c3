-- ===== src/Protocol/Frame/Tests.antt =====
-- internal/protocol/frame.go: a frame of two bytes, run and put through the theorems.
use veilink.Prelude.{◌∷◌, [], Bytes, refl, ok, ◌≡◌, arith}
use veilink.Protocol.Frame.{Frame, encode, decode, type_packet}
use veilink.Protocol.Frame.Roundtrip.{decode-encode}

abbrev frame_bytes : Bytes
frame_bytes = b'V' ∷ b'L' ∷ 1 ∷ 3 ∷ 1 ∷ 2 ∷ 0 ∷ 2 ∷ 7 ∷ 9 ∷ []

abbrev frame : Frame
frame = record { typ = type_packet; flags = 258; payload = 7 ∷ 9 ∷ [] }

encode_two : encode type_packet 258 (7 ∷ 9 ∷ []) ≡ ok frame_bytes
unfolding encode
encode_two = refl

decode_two : decode frame_bytes ≡ ok frame
unfolding decode
decode_two = refl

decode-encode_example : decode frame_bytes ≡ ok frame
decode-encode_example = decode-encode type_packet 258 (7 ∷ 9 ∷ []) (omega arith) encode_two
