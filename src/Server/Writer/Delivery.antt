-- ===== src/Server/Writer/Delivery.antt =====
-- internal/server/server.go: the frames that `writeLoop` writes are those of the packets that waited, in
-- their order.
use veilink.Prelude.{
  subst, ◌-◌, ◌≡◌, ◌≤◌, ◌∙◌, ap, sym, refl, arith, ℕ, suc, inl, inr, Bool, true, false, List, [],
  ◌∷◌, ◌++◌, Bytes, ok, length, All, Bool-cases, Result-cases,
}
use mathlib.Core.List.{append-nil, append_assoc}
use veilink.Protocol.Frame.{decode, type_packet, max_packet_size}
use veilink.Protocol.Frame.Roundtrip.{decode-encode}
use veilink.Protocol.Frame.Codec.{encode_fits, header}
use veilink.Server.{packet_frame}
use veilink.Server.Writer.{
  Wake, cancelled, packet_ready, ticked, Outbox, write_packet, write_round, write_loop,
}

-- Frames that hold these packets, one each.
abbrev pub Hold : List Bytes → List Bytes → Type 0
Hold [] [] = Unit {0}
Hold [] (p ∷ ps) = ⊥
Hold (raw ∷ raws) [] = ⊥
Hold (raw ∷ raws) (p ∷ ps) =
    (decode raw ≡ ok (record { typ = type_packet; flags = 0; payload = p })) × Hold raws ps

packet_frame_holds :
    (packet : Bytes) {raw : Bytes}
    → packet_frame packet ≡ ok raw
    → decode raw ≡ ok (record { typ = type_packet; flags = 0; payload = packet })
unfolding packet_frame
packet_frame_holds packet e = decode-encode type_packet 0 packet (omega arith) e

-- What the loop did: the packets `out` were written, at most one was taken and lost, and that only at
-- the end of the loop, and the others wait.
pub record Wrote (o : Outbox) (r : Outbox × Bool) : Type 0 where
  pub out : List Bytes
  pub lost : List Bytes
  pub frames : List Bytes
  pub order : o.waiting ≡ out ++ (lost ++ r.0.waiting)
  pub sent : r.0.sent ≡ o.sent ++ frames
  pub hold : Hold frames out
  pub at_most_one : length lost ≤ 1
  pub no_loss : r.1 ≡ true → lost ≡ []

module _ (o : Outbox) where
  -- A round that writes nothing: `lost` was taken, and `r` is left.
  idle :
      (lost rest : List Bytes) (b : Bool)
      → o.waiting ≡ lost ++ rest
      → length lost ≤ 1
      → (b ≡ true → lost ≡ [])
      → Wrote o (record { waiting = rest; sent = o.sent }, b)
  idle lost rest b order few no_loss = record {
    out = [];
    lost = lost;
    frames = [];
    order = order;
    sent = sym (append-nil o.sent);
    hold = tt;
    at_most_one = few;
    no_loss = no_loss;
  }

  write_packet-Wrote :
      (written : Bool) (q : List Bytes) → o.waiting ≡ q → Wrote o (write_packet written q o)
  write_packet-Wrote written [] e = idle [] o.waiting true refl (omega arith) (λ x. refl)
  write_packet-Wrote written (packet ∷ rest) e = elim (Result-cases (packet_frame packet)) [
    | inl (raw, f) ↦ elim (Bool-cases written) [
      | inl through ↦
          rw (f, write_packet)
            (rw through (record {
              out = packet ∷ [];
              lost = [];
              frames = raw ∷ [];
              order = e;
              sent = refl;
              hold = (packet_frame_holds packet f, tt);
              at_most_one = omega arith;
              no_loss = λ x. refl;
            }))
      | inr failed ↦
          rw (f, write_packet) (rw failed (idle (packet ∷ []) rest false e (omega arith) (λ x. cc)))
    ]
    | inr (inl (x, f)) ↦
        rw (f, write_packet) (idle (packet ∷ []) rest false e (omega arith) (λ x. cc))
    | inr (inr f) ↦ rw (f, write_packet) (idle (packet ∷ []) rest false e (omega arith) (λ x. cc))
  ]

write_round-Wrote : (w : Wake) (o : Outbox) → Wrote o (write_round w o)
unfolding write_round
write_round-Wrote cancelled o = idle o [] o.waiting false refl (omega arith) (λ x. refl)
write_round-Wrote (ticked answered) o = idle o [] o.waiting answered refl (omega arith) (λ x. refl)
write_round-Wrote (packet_ready written) o = write_packet-Wrote o written o.waiting refl

Hold-append :
    (rs ps rs' ps' : List Bytes) → Hold rs ps → Hold rs' ps' → Hold (rs ++ rs') (ps ++ ps')
Hold-append [] [] rs' ps' h k = k
Hold-append [] (p ∷ ps) rs' ps' h k = absurd h
Hold-append (r ∷ rs) [] rs' ps' h k = absurd h
Hold-append (r ∷ rs) (p ∷ ps) rs' ps' h k = (h.0, Hold-append rs ps rs' ps' h.1 k)

-- Whatever wakes the write loop and whichever writes and pings fail, the frames that it adds to
-- what was sent hold the oldest of the waiting packets, each in a frame of its own and in their
-- order; what still waits are the newest, in their order; and at most one packet between them is
-- lost, and none where the loop goes on.
pub write_loop-Wrote : (ws : List Wake) (o : Outbox) → Wrote o (write_loop ws o)
unfolding write_loop
write_loop-Wrote [] o = idle o [] o.waiting true refl (omega arith) (λ x. refl)
write_loop-Wrote (w ∷ ws) o =
    let one = write_round-Wrote w o in
    let more = write_loop-Wrote ws (write_round w o).0 in
    elim (Bool-cases (write_round w o).1) [
      | inr stops ↦ rw stops (record {
        out = one.out;
        lost = one.lost;
        frames = one.frames;
        order = one.order;
        sent = one.sent;
        hold = one.hold;
        at_most_one = one.at_most_one;
        no_loss = λ x. cc;
      })
      | inl goes_on ↦ rw goes_on (record {
        out = one.out ++ more.out;
        lost = more.lost;
        frames = one.frames ++ more.frames;
        order =
            one.order
            ∙ ap (λ l. one.out ++ (l ++ (write_round w o).0.waiting)) (one.no_loss goes_on)
            ∙ ap (λ x. one.out ++ x) more.order
            ∙ sym (append_assoc one.out more.out _);
        sent =
            more.sent
            ∙ ap (λ x. x ++ more.frames) one.sent
            ∙ append_assoc o.sent one.frames more.frames;
        hold = Hold-append one.frames one.out more.frames more.out one.hold more.hold;
        at_most_one = more.at_most_one;
        no_loss = more.no_loss;
      })
    ]

-- Wakes in which no write and no ping fails, and how many are for a packet.
abbrev pub AllWell : List Wake → Type 0
AllWell [] = Unit {0}
AllWell (cancelled ∷ ws) = ⊥
AllWell (packet_ready written ∷ ws) = (written ≡ true) × AllWell ws
AllWell (ticked answered ∷ ws) = (answered ≡ true) × AllWell ws

abbrev pub packets_ready : List Wake → ℕ
packets_ready [] = 0
packets_ready (cancelled ∷ ws) = packets_ready ws
packets_ready (packet_ready written ∷ ws) = suc (packets_ready ws)
packets_ready (ticked answered ∷ ws) = packets_ready ws

-- A packet that fits a frame has one.
packet_frame_fits :
    (packet : Bytes)
    → length packet ≤ max_packet_size
    → (raw : Bytes) × (packet_frame packet ≡ ok raw)
unfolding packet_frame
packet_frame_fits packet h =
    (header type_packet 0 (length packet) ++ packet, encode_fits type_packet 0 packet refl h)

abbrev Fit : List Bytes → Type 0
Fit = All (λ p. length p ≤ max_packet_size)

write_packet_well :
    (q : List Bytes) (o : Outbox)
    → o.waiting ≡ q
    → Fit q
    → ((write_packet true q o).1 ≡ true)
      × (length (write_packet true q o).0.waiting ≤ length q - 1)
      × Fit (write_packet true q o).0.waiting
write_packet_well [] o e fit = (refl, rw e (omega arith), rw e tt)
write_packet_well (packet ∷ rest) o e fit =
    let (raw, f) = packet_frame_fits packet fit.0 in rw (f, write_packet) (refl, omega arith, fit.1)

write_loop_drains :
    (ws : List Wake) (o : Outbox)
    → AllWell ws
    → length o.waiting ≤ packets_ready ws
    → All (λ p. length p ≤ max_packet_size) o.waiting
    → ((write_loop ws o).0.waiting ≡ []) × ((write_loop ws o).1 ≡ true)
unfolding write_loop write_round
write_loop_drains [] o well enough fit = (drained o.waiting enough, refl)
  where
    drained : (q : List Bytes) → length q ≤ 0 → q ≡ []
    drained [] h = refl
    drained (p ∷ q) h = absurd (omega arith)
write_loop_drains (cancelled ∷ ws) o well enough fit = absurd well
write_loop_drains (ticked answered ∷ ws) o well enough fit =
    rw (well.0) (write_loop_drains ws o well.1 enough fit)
write_loop_drains (packet_ready written ∷ ws) o well enough fit =
    let (goes_on, fewer, fit') = write_packet_well o.waiting o refl fit in
    let drains = write_loop_drains ws (write_packet true o.waiting o).0 well.1 (omega arith) fit' in
    rw (well.0, goes_on) drains

-- All that waits is written, in order.
pub write_loop_flushes :
    (ws : List Wake) (o : Outbox)
    → AllWell ws
    → length o.waiting ≤ packets_ready ws
    → All (λ p. length p ≤ max_packet_size) o.waiting
    → (frames : List Bytes) × ((write_loop ws o).0.sent ≡ o.sent ++ frames) × Hold frames o.waiting
write_loop_flushes ws o well enough fit =
    let (none_waits, goes_on) = write_loop_drains ws o well enough fit in
    let w = write_loop-Wrote ws o in
    let all : o.waiting ≡ w.out =
      w.order
      ∙ ap (λ l. w.out ++ (l ++ (write_loop ws o).0.waiting)) (w.no_loss goes_on)
      ∙ ap (λ l. w.out ++ l) none_waits
      ∙ append-nil w.out in
    (w.frames, w.sent, subst (λ ps. Hold w.frames ps) (sym all) w.hold)
