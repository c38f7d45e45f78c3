-- ===== src/Protocol/Frame/Equivalence.antt =====
-- internal/protocol/frame.go: the type of the frames and the type of the messages that `Decode` accepts are
-- equal, and `Encode` and `Decode` are the transports along this equation.
use veilink.Prelude.{
  ◌+◌, ◌*◌, ℕ, ◌≡◌, ◌∙◌, ◌<◌, ◌≤◌, sym, ap, subst, refl, arith, Bool, true, false, [], ◌∷◌, ◌++◌,
  length, Bytes, IsBytes, IsBytes-append, Result, ok, err, panic, inl, inr,
}
use mathlib.Core.Path.{transport, transport⁻¹}
use mathlib.Core.Equiv.{Iso, iso_to_equiv}
use mathlib.Core.HLevel.{Σ_prop_path, Σ_prop}
use native.Mathlib.Bridge.{le_prop}
use veilink.Protocol.Frame.{Frame, FrameError, valid_type, encode, decode, max_packet_size}
use veilink.Protocol.Frame.Codec.{
  header, encode_fits, Header-cases, decode_short, parse, decode_lem,
}
use veilink.Protocol.Frame.Roundtrip.{encode-Encodes, decode-encode, encode-decode}

-- A known type, flags of 16 bits, and a payload of at most 65,535 bytes.
abbrev pub IsGood : Frame → Type 0
IsGood f =
    (valid_type f.typ ≡ true)
    × ((f.flags < 65536) × ((length f.payload ≤ max_packet_size) × IsBytes f.payload))

abbrev pub GoodFrame : Type 0
GoodFrame = (f : Frame) × IsGood f

abbrev pub is_ok : Result FrameError Frame → Bool
is_ok (ok f) = true
is_ok (err e) = false
is_ok panic = false

-- A string of bytes that `Decode` accepts.
abbrev pub WireMessage : Type 0
WireMessage = (b : Bytes) × (IsBytes b × (is_ok (decode b) ≡ true))

abbrev or_else : Frame → Result FrameError Frame → Frame
or_else d (ok f) = f
or_else d (err e) = d
or_else d panic = d

frame_in : (r : Result FrameError Frame) → is_ok r ≡ true → (f : Frame) × (r ≡ ok f)
frame_in (ok f) h = (f, refl)
frame_in (err e) h = absurd (ground (arith, h))
frame_in panic h = absurd (ground (arith, h))

IsBytes-prop : (b : Bytes) → IsProp (IsBytes b)
IsBytes-prop [] = hlevel
IsBytes-prop (x ∷ b) = Σ_prop le_prop (λ _. IsBytes-prop b)

IsGood-prop : (f : Frame) → IsProp (IsGood f)
IsGood-prop f =
    Σ_prop (hlevel) (λ _. Σ_prop le_prop (λ _. Σ_prop le_prop (λ _. IsBytes-prop f.payload)))

parsed_flags :
    (b0 b1 b2 b3 b4 b5 b6 b7 : ℕ) (rest : Bytes) (f : Frame)
    → parse b0 b1 b2 b3 (b4 * 256 + b5) (b6 * 256 + b7) rest ≡ ok f
    → (b4 < 256)
    → (b5 < 256)
    → f.flags < 65536
parsed_flags b0 b1 b2 b3 b4 b5 b6 b7 rest f e h4 h5 = ground arith

decoded_flags : (b : Bytes) (f : Frame) → IsBytes b → decode b ≡ ok f → f.flags < 65536
decoded_flags b f h e = elim (Header-cases b) [
  | inl short ↦ cc (decode_short b short)
  | inr (b0, b1, b2, b3, b4, b5, b6, b7, rest, eq) ↦
      let h' : IsBytes (b0 ∷ b1 ∷ b2 ∷ b3 ∷ b4 ∷ b5 ∷ b6 ∷ b7 ∷ rest) = subst IsBytes eq h in
      let e' : parse b0 b1 b2 b3 (b4 * 256 + b5) (b6 * 256 + b7) rest ≡ ok f =
        sym (decode_lem b0 b1 b2 b3 b4 b5 b6 b7 rest) ∙ rw eq at e in
      parsed_flags b0 b1 b2 b3 b4 b5 b6 b7 rest f e' (omega arith) (omega arith)
]

decoded-IsGood : (b : Bytes) (f : Frame) → IsBytes b → decode b ≡ ok f → IsGood f
decoded-IsGood b f h e =
    let w = encode-Encodes f.typ f.flags f.payload b (encode-decode b h e) in
    let whole : IsBytes (header f.typ f.flags (length f.payload) ++ f.payload) =
      subst IsBytes w.written h in
    (w.known, (decoded_flags b f h e, (w.fits, whole.1.1.1.1.1.1.1.1)))

header-IsBytes : (typ flags n : ℕ) → valid_type typ ≡ true → IsBytes (header typ flags n)
header-IsBytes typ flags n known = let typ_fits : typ < 256 = ground arith in omega arith

pub message_of : GoodFrame → WireMessage
message_of (f, (known, (flags, (fits, bytes)))) =
    let b = header f.typ f.flags (length f.payload) ++ f.payload in
    let sent = encode_fits f.typ f.flags f.payload known fits in
    (
      b,
      (
        IsBytes-append (header f.typ f.flags (length f.payload)) f.payload
            (header-IsBytes f.typ f.flags (length f.payload) known) bytes,
        subst (λ r. is_ok r ≡ true) (sym (decode-encode f.typ f.flags f.payload flags sent)) refl,
      ),
    )

pub frame_of : WireMessage → GoodFrame
unfolding frame_in
frame_of (b, (bytes, accepted)) =
    let (f, e) = frame_in (decode b) accepted in (f, decoded-IsGood b f bytes e)

message_of-encodes : (f : GoodFrame) → encode f.0.typ f.0.flags f.0.payload ≡ ok (message_of f).0
unfolding message_of
message_of-encodes (f, (known, (flags, (fits, bytes)))) =
    encode_fits f.typ f.flags f.payload known fits

frame_of-decodes : (m : WireMessage) → decode m.0 ≡ ok (frame_of m).0
unfolding frame_of
frame_of-decodes (b, (bytes, accepted)) = (frame_in (decode b) accepted).1

frame_inj : {x y : Frame} → ◌≡◌ {A = Result FrameError Frame} (ok x) (ok y) → x ≡ y
frame_inj {x} e = ap (or_else x) e

bytes_inj : {x y : Bytes} → ◌≡◌ {A = Result FrameError Bytes} (ok x) (ok y) → x ≡ y
bytes_inj e = cc

frames : Iso GoodFrame WireMessage
frames = record {
  fun = message_of;
  inv = frame_of;
  rinv = λ m.
      Σ_prop_path (λ b. Σ_prop (IsBytes-prop b) (λ _. hlevel))
        (bytes_inj
          (sym (message_of-encodes (frame_of m)) ∙ encode-decode m.0 m.1.0 (frame_of-decodes m)));
  linv = λ f. Σ_prop_path IsGood-prop (
      frame_inj (
        sym (frame_of-decodes (message_of f))
        ∙ decode-encode f.0.typ f.0.flags f.0.payload f.1.1.0 (message_of-encodes f)));
}

frames_path : GoodFrame ≡ WireMessage
frames_path = λ i. V i GoodFrame WireMessage (iso_to_equiv frames)

along : (f : GoodFrame) → transport frames_path f ≡ message_of f
unfolding frames_path frames transport
along f = λ j. coe j 1 (_. WireMessage) (message_of f)

back : (m : WireMessage) → transport⁻¹ frames_path m ≡ frame_of m
unfolding frames_path frames frame_of transport⁻¹
back m = λ j. frame_of (coe 1 j (_. WireMessage) m)

-- The type of the frames with a known type, flags below 65536 and a payload of at most 65,535 bytes
-- equals the type of the strings of bytes that `Decode` accepts, by an equation along which a frame
-- is carried to what `Encode` gives of it, and a message to what `Decode` gives of it.
pub frames_eq_messages :
    (p : GoodFrame ≡ WireMessage) × ((f : GoodFrame)
      → encode f.0.typ f.0.flags f.0.payload ≡ ok (transport p f).0)
    × ((m : WireMessage) → decode m.0 ≡ ok (transport⁻¹ p m).0)
frames_eq_messages = (
  frames_path,
  λ f. message_of-encodes f ∙ ap (λ m. ok m.0) (sym (along f)),
  λ m. frame_of-decodes m ∙ ap (λ f. ok f.0) (sym (back m)),
)
