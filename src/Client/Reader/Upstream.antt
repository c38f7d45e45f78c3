-- ===== src/Client/Reader/Upstream.antt =====
-- internal/client/client.go with internal/server/server.go and internal/device/device.go: from the device
-- of a client to the one of the server.
use veilink.Prelude.{
  ℕ, zero, suc, ◌≢◌, pos_part, ◌≡◌, ◌≤◌, ◌∙◌, ap, sym, refl, arith, ℤ, pos, ltb_ℤ, Bool, true,
  false, List, [], ◌∷◌, ◌++◌, map, Option, some, length, take, All, IsBytes, Bytes, Result-cases,
  inl, inr,
}
use mathlib.Core.List.{append-nil, append_assoc}
use veilink.Netip.{Addr, addr_eq_refl}
use veilink.Device.{TunRead, fault, bytes, TunReturn, failed, filled, read_packet}
use veilink.Protocol.Frame.{max_packet_size}
use veilink.Protocol.Packet.{ipv4_source_destination}
use veilink.Protocol.Packet.Header.{
  IsPacket, source, ipv4_of_IsPacket, ipv4-ne-panic, IsPacket-length,
}
use veilink.Server.{Server, Identity, read_loop}
use veilink.Server.Accepting.{arrive}
use veilink.Server.Spoofing.{IsOwn}
use veilink.Server.Writer.{Wake}
use veilink.Server.Writer.Delivery.{AllWell, packets_ready}
use veilink.Client.{Filtered, read_tun, skipped, crashed, queued}
use veilink.Client.EndToEnd.{read_tun-queued}
use veilink.Client.Reader.{put, on_read, tun_loop}
use veilink.Client.Writer.{session_loop}
use veilink.Client.Writer.Delivery.{client_delivers}

-- A size that the library gives is not negative.
abbrev pub IsSized : TunReturn → Type 0
IsSized failed = Unit {0}
IsSized (filled n size buf) = ltb_ℤ size (pos 0) ≡ false

-- An IPv4 packet from the assigned address, within the MTU of the device.
pub record IsFrom (assigned : Addr) (mtu : ℤ) (packet : Bytes) : Type 0 where
  pub shape : IsPacket packet
  pub from : source packet ≡ assigned
  pub fits : ltb_ℤ mtu (pos (length packet)) ≡ false

length-take-le : (n : ℕ) (s : Bytes) → length (take n s) ≤ n
length-take-le zero s = omega arith
length-take-le (suc n) [] = omega arith
length-take-le (suc n) (c ∷ s) = omega (arith, length-take-le n s)

read_tun-ne-crashed :
    (assigned : Addr) (mtu n : ℤ) (buf : Bytes)
    → ltb_ℤ (pos max_packet_size) mtu ≡ false
    → ltb_ℤ n (pos 0) ≡ false
    → read_tun assigned mtu n buf ≢ crashed
unfolding read_tun
read_tun-ne-crashed assigned mtu n buf small sized e =
    elim (Result-cases (ipv4_source_destination (take (pos_part n) buf))) [
      | inl ((a, b), p) ↦ ground (arith, p)
      | inr (inl (x, p)) ↦ ground (arith, p)
      | inr (inr p) ↦ ipv4-ne-panic (take (pos_part n) buf) p
    ]

read_tun-IsFrom :
    (assigned : Addr) (mtu n : ℤ) (buf packet : Bytes)
    → read_tun assigned mtu n buf ≡ queued packet
    → IsFrom assigned mtu packet
read_tun-IsFrom assigned mtu n buf packet e =
    let (taken, shape, own, short, sized) = read_tun-queued assigned mtu n buf packet e in
    record {
      shape = shape;
      from = own;
      fits = ground (arith, taken, short, sized, length-take-le (pos_part n) buf);
    }

-- What a loop adds to what the channel has taken.
abbrev pub Adds : (Bytes → Type 0) → Option (List Bytes) → List Bytes → Type 0
Adds P o outbound = (new : List Bytes) × (o ≡ some (outbound ++ new)) × All P new

Adds-none : (P : Bytes → Type 0) (outbound : List Bytes) → Adds P (some outbound) outbound
Adds-none P outbound = ([], ap some (sym (append-nil outbound)), tt)

module _ (assigned : Addr) (mtu : ℤ) where
  put-IsFrom :
      (more : List Bytes → Option (List Bytes)) (taken : Bool) (f : Filtered)
      (outbound : List Bytes)
      → f ≢ crashed
      → ((packet : Bytes) → f ≡ queued packet → IsFrom assigned mtu packet)
      → ((out : List Bytes) → Adds (IsFrom assigned mtu) (more out) out)
      → Adds (IsFrom assigned mtu) (put more taken f outbound) outbound
  put-IsFrom more taken skipped outbound safe from later = later outbound
  put-IsFrom more taken crashed outbound safe from later = absurd (safe refl)
  put-IsFrom more false (queued packet) outbound safe from later = Adds-none _ outbound
  put-IsFrom more true (queued packet) outbound safe from later =
      let (new, is, all) = later (outbound ++ packet ∷ []) in
      (
        packet ∷ new,
        is ∙ ap some (append_assoc outbound (packet ∷ []) new),
        (from packet refl, all),
      )

  on_read-IsFrom :
      (more : List Bytes → Option (List Bytes)) (taken : Bool) (r : TunRead) (outbound : List Bytes)
      → ltb_ℤ (pos max_packet_size) mtu ≡ false
      → ((n : ℤ) (buf : Bytes) → r ≡ bytes n buf → ltb_ℤ n (pos 0) ≡ false)
      → ((out : List Bytes) → Adds (IsFrom assigned mtu) (more out) out)
      → Adds (IsFrom assigned mtu) (on_read assigned mtu more taken r outbound) outbound
  on_read-IsFrom more taken fault outbound small sized later = Adds-none _ outbound
  on_read-IsFrom more taken (bytes n buf) outbound small sized later =
      put-IsFrom more taken (read_tun assigned mtu n buf) outbound
        (read_tun-ne-crashed assigned mtu n buf small (sized n buf refl))
        (read_tun-IsFrom assigned mtu n buf) later

  read_packet-sized :
      (t : TunReturn) (n : ℤ) (buf : Bytes)
      → IsSized t
      → read_packet t ≡ bytes n buf
      → ltb_ℤ n (pos 0) ≡ false
  unfolding read_packet
  read_packet-sized failed n buf sized e = absurd (ground (arith, e))
  read_packet-sized (filled m size b) n buf sized e = ground arith

  -- With an MTU of at most 65,535, whatever the TUN library returns, with sizes that are not
  -- negative, `readTun` does not panic, and what it puts in the channel are IPv4 packets from the
  -- assigned address within the MTU, behind what was put there before.
  pub tun_loop-IsFrom :
      (ts : List (TunReturn × Bool)) (outbound : List Bytes)
      → ltb_ℤ (pos max_packet_size) mtu ≡ false
      → All (λ r. IsSized r.0) ts
      → Adds (IsFrom assigned mtu) (tun_loop assigned mtu ts outbound) outbound
  unfolding tun_loop
  tun_loop-IsFrom [] outbound small sized = Adds-none _ outbound
  tun_loop-IsFrom ((t, taken) ∷ ts) outbound small sized =
      on_read-IsFrom (tun_loop assigned mtu ts) taken (read_packet t) outbound small
        (λ n buf e. read_packet-sized t n buf sized.0 e)
        (λ out. tun_loop-IsFrom ts out small sized.1)

-- A read of one packet, which leaves what stood in the buffer behind it.
abbrev pub one_packet : Bytes × Bytes → TunReturn × Bool
one_packet (packet, stale) = (filled (pos 1) (pos (length packet)) (packet ++ stale), true)

take-length-append : (s t : Bytes) → take (length s) (s ++ t) ≡ s
take-length-append [] t = refl
take-length-append (c ∷ s) t = ap (λ r. c ∷ r) (take-length-append s t)

read_tun_takes :
    (id : Identity) (mtu : ℤ) (packet stale : Bytes)
    → IsBytes packet
    → IsOwn mtu id packet
    → read_tun id.addr mtu (pos (length packet)) (packet ++ stale) ≡ queued packet
unfolding read_tun
read_tun_takes id mtu packet stale is_bytes own = ground (
  arith,
  IsPacket-length packet is_bytes own.packet,
  take-length-append packet stale,
  own.fits,
  ipv4_of_IsPacket packet own.packet,
  own.own,
  addr_eq_refl id.addr,
)

tun_loop_takes :
    (id : Identity) (mtu : ℤ) (reads : List (Bytes × Bytes)) (outbound : List Bytes)
    → All (λ r. IsBytes r.0) reads
    → All (λ r. IsOwn mtu id r.0) reads
    → tun_loop id.addr mtu (map one_packet reads) outbound ≡ some (outbound ++ map (λ r. r.0) reads)
unfolding tun_loop read_packet
tun_loop_takes id mtu [] outbound is_bytes own = ap some (sym (append-nil outbound))
tun_loop_takes id mtu ((packet, stale) ∷ reads) outbound is_bytes own =
    rw (read_tun_takes id mtu packet stale is_bytes.0 own.0) (
      tun_loop_takes id mtu reads (outbound ++ packet ∷ []) is_bytes.1 own.1
      ∙ ap some (append_assoc outbound (packet ∷ []) (map (λ r. r.0) reads)))

abbrev packets : List (Bytes × Bytes) → List Bytes
packets reads = map (λ (r : Bytes × Bytes). r.0) reads

All-packets :
    (P Q : Bytes → Type 0) (reads : List (Bytes × Bytes))
    → ((p : Bytes) → P p → Q p)
    → All (λ r. P r.0) reads
    → All Q (packets reads)
All-packets P Q [] f h = tt
All-packets P Q (r ∷ reads) f h = (f r.0 h.0, All-packets P Q reads f h.1)

length-packets : (reads : List (Bytes × Bytes)) → length (packets reads) ≡ length reads
length-packets [] = refl
length-packets (r ∷ reads) = ap suc (length-packets reads)

narrower :
    (id : Identity) (mtu wide : ℤ) (p : Bytes)
    → ltb_ℤ wide mtu ≡ false
    → IsOwn mtu id p
    → IsOwn wide id p
narrower id mtu wide p e own = record {
  packet = own.packet;
  own = own.own;
  fits = ground (arith, own.fits);
}

-- Where the TUN library of a client gives one packet at a time, each from the address of the
-- identity and no longer than the device's MTU, which the server's is not below, the channel takes
-- them all before a session, no write and no ping fails and the session wakes for a packet at least
-- as often as there are packets, `readTun` does not panic and the server's read loop writes all of
-- the packets to its device, in their order.
pub device_to_server :
    (id : Identity) (mtu : ℤ) (s : Server) (ws : List Wake) (reads : List (Bytes × Bytes))
    → ltb_ℤ s.config.mtu mtu ≡ false
    → All (λ r. IsBytes r.0) reads
    → All (λ r. IsOwn mtu id r.0) reads
    → AllWell ws
    → length reads ≤ packets_ready ws
    → (outbound : List Bytes) × (tun_loop id.addr mtu (map one_packet reads) [] ≡ some outbound)
      × ((read_loop id
            (map arrive (session_loop ws (record { waiting = outbound; sent = [] })).0.sent)
            s).tun
          ≡ s.tun ++ map (λ r. r.0) reads)
device_to_server id mtu s ws reads wide is_bytes own well enough = (
  packets reads,
  tun_loop_takes id mtu reads [] is_bytes own,
  client_delivers id s ws (packets reads) well (omega (arith, length-packets reads))
      (All-packets IsBytes IsBytes reads (λ p b. b) is_bytes)
      (All-packets (IsOwn mtu id) (IsOwn s.config.mtu id) reads
        (λ p o. narrower id mtu s.config.mtu p wide o) own),
)
