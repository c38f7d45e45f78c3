-- ===== src/Client/Reader.antt =====
-- internal/client/client.go: the goroutine `readTun`, over what the TUN library returns. Each round has
-- with it whether the channel `outbound` takes a packet before the context is cancelled.
pub mod Upstream
mod Tests
use veilink.Prelude.{
  ℤ, Bool, true, false, List, [], ◌∷◌, ◌++◌, Option, none, some, Bytes, if◌then◌else◌,
}
use veilink.Netip.{Addr}
use veilink.Device.{TunRead, fault, bytes, TunReturn, read_packet}
use veilink.Client.{Filtered, read_tun, skipped, crashed, queued}

-- What a round puts in the channel, and the rounds after it; `none` is a panic.
abbrev pub put :
    (List Bytes → Option (List Bytes)) → Bool → Filtered → List Bytes → Option (List Bytes)
put more taken skipped outbound = more outbound
put more taken crashed outbound = none
put more taken (queued packet) outbound =
    let rest = more (outbound ++ packet ∷ []) in if taken then rest else some outbound

abbrev pub on_read :
    Addr
    → ℤ
    → (List Bytes → Option (List Bytes))
    → Bool
    → TunRead
    → List Bytes
    → Option (List Bytes)
on_read assigned mtu more taken fault outbound = some outbound
on_read assigned mtu more taken (bytes n buf) outbound =
    put more taken (read_tun assigned mtu n buf) outbound

pub tun_loop : Addr → ℤ → List (TunReturn × Bool) → List Bytes → Option (List Bytes)
tun_loop assigned mtu [] outbound = some outbound
tun_loop assigned mtu ((t, taken) ∷ ts) outbound =
    on_read assigned mtu (tun_loop assigned mtu ts) taken (read_packet t) outbound
