-- ===== src/Server/Spoofing.antt =====
-- internal/server/server.go: what a session may write to the device.
use veilink.Prelude.{
  ◌∙◌, Bool-cases, sym, ℤ, refl, All, Result-cases, Bool, length, ℕ, ◌∷◌, ◌++◌, ◌≡◌, List, [], true,
  false, some, none, ok, Bytes, ◌↔◌, arith, inl, inr, ltb_ℤ, pos,
}
use mathlib.Core.List.{append-nil, append_assoc}
use veilink.Netip.{addr_eq_sound, addr_eq_refl}
use veilink.Protocol.Frame.{decode, type_packet}
use veilink.Protocol.Packet.{ipv4_source_destination}
use veilink.Protocol.Packet.Header.{IsPacket, source, ipv4-IsPacket, ipv4_of_IsPacket}
use veilink.Server.{Server, Identity, Message, on_message, read_loop}

-- What a client may send: a packet frame of one IPv4 packet from its own address, within the MTU.
pub record IsPermitted (s : Server) (id : Identity) (raw payload : Bytes) : Type 0 where
  pub flags : ℕ
  pub framed : decode raw ≡ ok (record { typ = type_packet; flags = flags; payload = payload })
  pub packet : IsPacket payload
  pub own : source payload ≡ id.addr
  pub fits : ltb_ℤ s.config.mtu (pos (length payload)) ≡ false

on_message-IsPermitted :
    (id : Identity) (m : Message) (written : Bool) (s : Server)
    → (on_message id m written s).1 ≡ true
    → (raw payload : Bytes) × (m ≡ some (true, raw))
      × (IsPermitted s id raw payload)
      × (written ≡ true)
      × ((on_message id m written s).0.tun ≡ s.tun ++ payload ∷ [])
unfolding on_message
on_message-IsPermitted id none written s e = cc
on_message-IsPermitted id (some (false, raw)) written s e = cc
on_message-IsPermitted id (some (true, raw)) written s e = elim (Result-cases (decode raw)) [
  | inl (f, d) ↦ elim (Result-cases (ipv4_source_destination f.payload)) [
    | inl ((a, b), p) ↦
        let (shape, ends) = ipv4-IsPacket f.payload (a, b) p in
        (
          raw,
          f.payload,
          refl,
          record {
            flags = f.flags;
            framed = ground (arith, d, p);
            packet = shape;
            own = ground (arith, d, p, ends, addr_eq_sound a id.addr);
            fits = ground (arith, d, p);
          },
          ground (arith, d, p),
          ground (arith, d, p),
        )
    | inr bad ↦ absurd (ground (arith, d, bad))
  ]
  | inr bad ↦ absurd (ground (arith, bad))
]

IsPermitted-on_message :
    (id : Identity) (raw payload : Bytes) (s : Server)
    → IsPermitted s id raw payload
    → (on_message id (some (true, raw)) true s).1 ≡ true
unfolding on_message
IsPermitted-on_message id raw payload s h =
    ground (arith, h.framed, ipv4_of_IsPacket payload h.packet, h.own, h.fits, addr_eq_refl id.addr)

-- The read loop goes on after a message if and only if it is a binary message that holds a packet
-- frame of one IPv4 packet from the identity's own address within the configured MTU, and the
-- device takes the packet.
pub on_message_exact :
    (id : Identity) (m : Message) (written : Bool) (s : Server)
    → ((on_message id m written s).1 ≡ true) ↔ (
        (raw payload : Bytes) × (m ≡ some (true, raw))
        × IsPermitted s id raw payload
        × (written ≡ true))
on_message_exact id m written s = (
  (λ e.
      let (raw, payload, is, h, w, t) = on_message-IsPermitted id m written s e in
      (raw, payload, is, h, w)),
  (λ (raw, payload, is, h, w). rw (is, w) (IsPermitted-on_message id raw payload s h)),
)

-- A message that ends the loop writes nothing.
pub on_message_stop :
    (id : Identity) (m : Message) (written : Bool) (s : Server)
    → (on_message id m written s).1 ≡ false
    → (on_message id m written s).0.tun ≡ s.tun
unfolding on_message
on_message_stop id none written s e = refl
on_message_stop id (some (false, raw)) written s e = refl
on_message_stop id (some (true, raw)) written s e = ground arith

pub on_message-config :
    (id : Identity) (m : Message) (written : Bool) (s : Server)
    → (on_message id m written s).0.config ≡ s.config
unfolding on_message
on_message-config id none written s = refl
on_message-config id (some (false, raw)) written s = refl
on_message-config id (some (true, raw)) written s = ground arith

-- An IPv4 packet from the identity's address, within the MTU.
pub record IsOwn (mtu : ℤ) (id : Identity) (payload : Bytes) : Type 0 where
  pub packet : IsPacket payload
  pub own : source payload ≡ id.addr
  pub fits : ltb_ℤ mtu (pos (length payload)) ≡ false

-- Whatever messages a client sends, the packets that its session adds to what was written to the
-- device are IPv4 packets with the source address of its identity and no longer than the configured
-- MTU, and what was there before stays.
pub read_loop-IsOwn :
    (id : Identity) (ms : List (Message × Bool)) (s : Server)
    → (new : List Bytes) × ((read_loop id ms s).tun ≡ s.tun ++ new)
      × All (IsOwn s.config.mtu id) new
unfolding read_loop
read_loop-IsOwn id [] s = ([], sym (append-nil s.tun), tt)
read_loop-IsOwn id ((m, written) ∷ ms) s =
    let r = on_message id m written s in
    let (new, t, own) = read_loop-IsOwn id ms r.0 in
    elim (Bool-cases r.1) [
      | inl more ↦
          let (raw, payload, is, h, w, wrote) = on_message-IsPermitted id m written s more in
          (
            payload ∷ new,
            rw more (t ∙ rw wrote (append_assoc s.tun (payload ∷ []) new)),
            (
              record { packet = h.packet; own = h.own; fits = h.fits },
              rw (on_message-config id m written s) at own,
            ),
          )
      | inr stop ↦ ([], rw stop (on_message_stop id m written s stop ∙ sym (append-nil s.tun)), tt)
    ]
