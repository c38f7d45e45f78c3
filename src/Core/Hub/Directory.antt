-- ===== src/Core/Hub/Directory.antt =====
-- internal/core/hub.go: what the registry promises, with no word of how it is kept. A directory says
-- who owns each address, how many sessions there are, and what waits for each; the hub refines it.
pub mod Refinement
pub mod Representation
pub mod Commuting
use veilink.Prelude.{
  ◌≡◌, ◌↔◌, ◌⊎◌, ◌++◌, ◌-◌, ◌==◌, ℕ, suc, Bool, true, false, List, [], ◌∷◌, Option, none, some,
  Bytes, ltb, leb, length, if◌then◌else◌,
}
use veilink.Netip.{Addr, addr_eq}
use veilink.Core.Hub.{Hub, Peer, is_peer}
use veilink.Core.Hub.Registry.{Call, registers, unregisters, receives, dispatches, closes_all}
use veilink.Prelude.{lookup}
use veilink.Netip.{addr_Eq}

pub record Directory : Type 0 where
  pub owner : Addr → Option Peer
  pub sessions : ℕ
  pub limit : ℕ
  pub waiting : ℕ → List Bytes
  pub room : ℕ → ℕ
  pub ended : ℕ → Bool

abbrev pub view : Hub → Directory
view h = record {
  owner = λ a. lookup a h.peers;
  sessions = length h.peers;
  limit = h.max_peers;
  waiting = h.queues;
  room = h.capacity;
  ended = h.cancelled;
}

abbrev pub assign : Addr → Option Peer → (Addr → Option Peer) → Addr → Option Peer
assign a o owner b = if addr_eq a b then o else owner b

abbrev pub enters_over : Option Peer → Peer → Directory → Directory × Bool
enters_over none p d =
    if leb d.limit d.sessions
    then (d, false)
    else (record d { owner = assign p.addr (some p) d.owner; sessions = suc d.sessions }, true)
enters_over (some old) p d = (
  record d {
    owner = assign p.addr (some p) d.owner;
    ended = λ i. if i == old.id then true else d.ended i;
  },
  true,
)

abbrev pub enters : Peer → Directory → Directory × Bool
enters p d = enters_over (d.owner p.addr) p d

abbrev pub leaves : Peer → Directory → Directory
leaves p d =
    if is_peer (d.owner p.addr) p
    then record d { owner = assign p.addr none d.owner; sessions = d.sessions - 1 }
    else d

abbrev pub delivers_to : Option Peer → Bytes → Directory → Directory × Bool
delivers_to none packet d = (d, false)
delivers_to (some p) packet d =
    if ltb (length (d.waiting p.id)) (d.room p.id)
    then (
      record d { waiting = λ i. if i == p.id then d.waiting i ++ packet ∷ [] else d.waiting i },
      true,
    )
    else (d, false)

abbrev pub delivers : Addr → Bytes → Directory → Directory × Bool
delivers a packet d = delivers_to (d.owner a) packet d

abbrev pub takes_from : List Bytes → Peer → Directory → Directory
takes_from [] p d = d
takes_from (packet ∷ rest) p d = record d { waiting = λ i. if i == p.id then rest else d.waiting i }

abbrev pub takes : Peer → Directory → Directory
takes p d = takes_from (d.waiting p.id) p d

-- All sessions that own an address are ended, and nothing else changes.
pub record EndsAll (d d' : Directory) : Type 0 where
  pub owner : d'.owner ≡ d.owner
  pub sessions : d'.sessions ≡ d.sessions
  pub limit : d'.limit ≡ d.limit
  pub waiting : d'.waiting ≡ d.waiting
  pub room : d'.room ≡ d.room
  pub ended :
      (i : ℕ)
      → (d'.ended i ≡ true)
        ↔ ((d.ended i ≡ true) ⊎ ((a : Addr) × (p : Peer) × (d.owner a ≡ some p) × (p.id ≡ i)))

-- What a call does to a directory and answers; a call with no answer answers `true`.
abbrev pub Promise : Call → Directory → Directory → Bool → Type 0
Promise (registers p) d d' b = enters p d ≡ (d', b)
Promise (unregisters p) d d' b = (leaves p d ≡ d') × (b ≡ true)
Promise (receives p) d d' b = (takes p d ≡ d') × (b ≡ true)
Promise (dispatches a packet) d d' b = delivers a packet d ≡ (d', b)
Promise closes_all d d' b = EndsAll d d' × (b ≡ true)

-- A directory after some calls, with their answers.
pub data Follows : List Call → List Bool → Directory → Directory → Type 0 where
  done : {d : Directory} → Follows [] [] d d
  calls :
      {c : Call} {b : Bool} {cs : List Call} {bs : List Bool} {d e f : Directory}
      → Promise c d e b
      → Follows cs bs e f
      → Follows (c ∷ cs) (b ∷ bs) d f
