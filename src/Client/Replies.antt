-- ===== src/Client/Replies.antt =====
-- internal/client/client.go: what the server may make the client write to its device.
use veilink.Prelude.{
  ◌∙◌, ap, Bool-cases, sym, ℤ, refl, All, Result-cases, Bool, length, ◌∷◌, ◌++◌, ◌≡◌, List, [],
  true, false, some, none, Bytes, arith, inl, inr, ltb_ℤ, pos,
}
use mathlib.Core.List.{append-nil, append_assoc}
use veilink.Netip.{Addr, addr_eq_sound}
use veilink.Protocol.Frame.{decode}
use veilink.Protocol.Packet.{ipv4_source_destination}
use veilink.Protocol.Packet.Header.{IsPacket, destination, ipv4-IsPacket}
use veilink.Server.{Message}
use veilink.Client.{on_reply, reply_loop}

-- An IPv4 packet to the assigned address, within the MTU of the device.
pub record IsAddressed (assigned : Addr) (mtu : ℤ) (packet : Bytes) : Type 0 where
  pub shape : IsPacket packet
  pub to : destination packet ≡ assigned
  pub fits : ltb_ℤ mtu (pos (length packet)) ≡ false

on_reply-IsAddressed :
    (assigned : Addr) (mtu : ℤ) (m : Message) (written : Bool) (tun : List Bytes)
    → (on_reply assigned mtu m written tun).1 ≡ true
    → (packet : Bytes) × IsAddressed assigned mtu packet
      × ((on_reply assigned mtu m written tun).0 ≡ tun ++ packet ∷ [])
unfolding on_reply
on_reply-IsAddressed assigned mtu none written tun e = cc
on_reply-IsAddressed assigned mtu (some (false, raw)) written tun e = cc
on_reply-IsAddressed assigned mtu (some (true, raw)) written tun e =
    elim (Result-cases (decode raw)) [
      | inl (f, d) ↦ elim (Result-cases (ipv4_source_destination f.payload)) [
        | inl ((a, b), p) ↦
            let (shape, ends) = ipv4-IsPacket f.payload (a, b) p in
            (
              f.payload,
              record {
                shape = shape;
                to = ground (arith, d, p, ends, addr_eq_sound b assigned);
                fits = ground (arith, d, p);
              },
              ground (arith, d, p),
            )
        | inr bad ↦ absurd (ground (arith, d, bad))
      ]
      | inr bad ↦ absurd (ground (arith, bad))
    ]

-- A message that ends the loop writes nothing.
on_reply_stop :
    (assigned : Addr) (mtu : ℤ) (m : Message) (written : Bool) (tun : List Bytes)
    → (on_reply assigned mtu m written tun).1 ≡ false
    → (on_reply assigned mtu m written tun).0 ≡ tun
unfolding on_reply
on_reply_stop assigned mtu none written tun e = refl
on_reply_stop assigned mtu (some (false, raw)) written tun e = refl
on_reply_stop assigned mtu (some (true, raw)) written tun e = ground arith

-- Whatever messages a server sends, the packets that the client's reader adds to what was written
-- to its device are IPv4 packets to the assigned address within the MTU, and what was there before
-- stays.
pub reply_loop-IsAddressed :
    (assigned : Addr) (mtu : ℤ) (ms : List (Message × Bool)) (tun : List Bytes)
    → (new : List Bytes) × (reply_loop assigned mtu ms tun ≡ tun ++ new)
      × All (IsAddressed assigned mtu) new
unfolding reply_loop
reply_loop-IsAddressed assigned mtu [] tun = ([], sym (append-nil tun), tt)
reply_loop-IsAddressed assigned mtu ((m, written) ∷ ms) tun =
    let r = on_reply assigned mtu m written tun in
    let (new, t, to) = reply_loop-IsAddressed assigned mtu ms r.0 in
    elim (Bool-cases r.1) [
      | inl more ↦
          let (packet, h, wrote) = on_reply-IsAddressed assigned mtu m written tun more in
          (
            packet ∷ new,
            rw more (t ∙ ap (λ ps. ps ++ new) wrote ∙ append_assoc tun (packet ∷ []) new),
            (h, to),
          )
      | inr stop ↦
          ([], rw stop (on_reply_stop assigned mtu m written tun stop ∙ sym (append-nil tun)), tt)
    ]
