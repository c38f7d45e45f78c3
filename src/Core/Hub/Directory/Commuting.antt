-- ===== src/Core/Hub/Directory/Commuting.antt =====
-- internal/core/hub.go: the order in which sessions register for different addresses cannot be seen.
use mathlib.Core.Path.{fun_ext}
use mathlib.Core.Quot
use veilink.Prelude.{
  ◌≡◌, ◌∙◌, ◌+◌, ◌≤◌, ◌==◌, refl, sym, ap, arith, ℕ, suc, Bool, true, false, List, [], ◌∷◌, Option,
  none, some, leb, length, Bool-cases, inl, inr, if◌then◌else◌, lookup,
}
use veilink.Netip.{Addr, addr_eq, addr_eq_sound, addr_eq_refl, addr_Eq}
use veilink.Metrics.{Counters}
use veilink.Core.Hub.{Hub, Peer}
use veilink.Core.Hub.Registry.{Call, registers, step, IsValid, step-IsValid}
use veilink.Core.Hub.Directory.{Directory, view, assign, enters_over, enters}
use veilink.Core.Hub.Directory.Refinement.{answer, answers, step-Promise}
use veilink.Core.Hub.Directory.Representation.{call, run-view, welcomed, counted, step-counted}

abbrev grown : Option Peer → ℕ → ℕ
grown none n = suc n
grown (some old) n = n

abbrev ended_after : Option Peer → (ℕ → Bool) → ℕ → Bool
ended_after none ended = ended
ended_after (some old) ended = λ i. if i == old.id then true else ended i

-- A directory after a registration that is not refused.
abbrev entered : Option Peer → Peer → Directory → Directory
entered o p d = record d {
  owner = assign p.addr (some p) d.owner;
  sessions = grown o d.sessions;
  ended = ended_after o d.ended;
}

enters_room :
    (o : Option Peer) (p : Peer) (d : Directory)
    → leb d.limit d.sessions ≡ false
    → enters_over o p d ≡ (entered o p d, true)
enters_room none p d room = rw room refl
enters_room (some old) p d room = refl

room_left :
    (o : Option Peer) (d : Directory)
    → d.sessions + 2 ≤ d.limit
    → leb d.limit (grown o d.sessions) ≡ false
room_left none d h = ground arith
room_left (some old) d h = ground arith

enters_twice :
    (p q : Peer) (d : Directory)
    → addr_eq p.addr q.addr ≡ false
    → d.sessions + 2 ≤ d.limit
    → (enters p d ≡ (entered (d.owner p.addr) p d, true))
      × (enters q (entered (d.owner p.addr) p d)
          ≡ (entered (d.owner q.addr) q (entered (d.owner p.addr) p d), true))
enters_twice p q d apart room = (
  enters_room (d.owner p.addr) p d (ground arith),
  rw apart (
      enters_room (d.owner q.addr) q (entered (d.owner p.addr) p d)
        (room_left (d.owner p.addr) d room)),
)

ended_swap :
    (o o' : Option Peer) (ended : ℕ → Bool) (i : ℕ)
    → ended_after o (ended_after o' ended) i ≡ ended_after o' (ended_after o ended) i
ended_swap none o' ended i = refl
ended_swap (some old) none ended i = refl
ended_swap (some old) (some old') ended i = ground arith

grown_swap : (o o' : Option Peer) (n : ℕ) → grown o (grown o' n) ≡ grown o' (grown o n)
grown_swap none none n = refl
grown_swap none (some old) n = refl
grown_swap (some old) none n = refl
grown_swap (some old) (some old') n = refl

assign_swap :
    (a b c : Addr) (o o' : Option Peer) (owner : Addr → Option Peer)
    → addr_eq a b ≡ false
    → assign a o (assign b o' owner) c ≡ assign b o' (assign a o owner) c
assign_swap a b c o o' owner apart = elim (Bool-cases (addr_eq a c)) [
  | inr other ↦ rw other refl
  | inl mine ↦ elim (Bool-cases (addr_eq b c)) [
    | inr other ↦ rw other refl
    | inl both ↦
        let same : a ≡ b = addr_eq_sound a c mine ∙ sym (addr_eq_sound b c both) in
        absurd (ground (arith, rw same at apart, addr_eq_refl b))
  ]
]

entered_swap :
    (o o' : Option Peer) (p q : Peer) (d : Directory)
    → addr_eq p.addr q.addr ≡ false
    → entered o' q (entered o p d) ≡ entered o p (entered o' q d)
entered_swap o o' p q d apart =
    let owner = fun_ext (λ a. sym (assign_swap p.addr q.addr a (some p) (some q) d.owner apart)) in
    let ended = fun_ext (λ i. ended_swap o' o d.ended i) in
    λ i. record d { owner = owner i; sessions = grown_swap o' o d.sessions i; ended = ended i }

welcomed_swap :
    (o o' : Option Peer) (m : Counters) → welcomed o (welcomed o' m) ≡ welcomed o' (welcomed o m)
welcomed_swap none none m = refl
welcomed_swap none (some old) m = refl
welcomed_swap (some old) none m = refl
welcomed_swap (some old) (some old') m = refl

counted_room :
    (o : Option Peer) (p : Peer) (d : Directory) (m : Counters)
    → d.owner p.addr ≡ o
    → leb d.limit d.sessions ≡ false
    → counted (registers p) d m ≡ welcomed o m
counted_room none p d m e room = rw (e, room) refl
counted_room (some old) p d m e room = rw e refl

counted_twice :
    (p q : Peer) (d : Directory) (m : Counters)
    → addr_eq p.addr q.addr ≡ false
    → d.sessions + 2 ≤ d.limit
    → counted (registers q) (entered (d.owner p.addr) p d) (counted (registers p) d m)
      ≡ welcomed (d.owner q.addr) (welcomed (d.owner p.addr) m)
counted_twice p q d m apart room =
    counted_room (d.owner q.addr) q (entered (d.owner p.addr) p d) _ (rw apart refl)
      (room_left (d.owner p.addr) d room)
    ∙ ap (welcomed (d.owner q.addr)) (counted_room (d.owner p.addr) p d m refl (ground arith))

module _ (h : Hub) (v : IsValid h) (p q : Peer) (apart : addr_eq p.addr q.addr ≡ false)
    (room : length h.peers + 2 ≤ h.max_peers) where
  first : Hub
  first = step h (registers p)

  first-view : view first ≡ entered (lookup p.addr h.peers) p (view h)
  unfolding first
  first-view =
      ap (λ r. r.0)
        (sym (step-Promise h (registers p) v) ∙ (enters_twice p q (view h) apart room).0)

  second-view :
      view (step first (registers q))
      ≡ entered (lookup q.addr h.peers) q (entered (lookup p.addr h.peers) p (view h))
  unfolding first
  second-view =
      ap (λ r. r.0)
        (sym (step-Promise (step h (registers p)) (registers q) (step-IsValid h (registers p) v))
          ∙ ap (enters q) first-view
          ∙ (enters_twice p q (view h) apart room).1)

  taken : (answer h (registers p) ≡ true) × (answer first (registers q) ≡ true)
  unfolding first
  taken = (
    ap (λ r. r.1) (sym (step-Promise h (registers p) v) ∙ (enters_twice p q (view h) apart room).0),
    ap (λ r. r.1)
        (sym (step-Promise (step h (registers p)) (registers q) (step-IsValid h (registers p) v))
          ∙ ap (enters q) first-view
          ∙ (enters_twice p q (view h) apart room).1),
  )

  both_taken :
      (cs : List Call)
      → answers h (registers p ∷ registers q ∷ cs)
        ≡ true ∷ true ∷ answers (step first (registers q)) cs
  unfolding answers first
  both_taken cs =
      let (one, two) = taken in
      λ i. one i ∷ two i ∷ answers (step (step h (registers p)) (registers q)) cs

  levels :
      (step first (registers q)).metrics
      ≡ welcomed (lookup q.addr h.peers) (welcomed (lookup p.addr h.peers) h.metrics)
  unfolding first
  levels =
      step-counted (step h (registers p)) (registers q)
      ∙ (λ i. counted (registers q) (first-view i) (step-counted h (registers p) i))
      ∙ counted_twice p q (view h) h.metrics apart room

apart_sym : (a b : Addr) → addr_eq a b ≡ false → addr_eq b a ≡ false
apart_sym a b apart = elim (Bool-cases (addr_eq b a)) [
  | inr other ↦ other
  | inl same ↦ absurd (ground (arith, rw (addr_eq_sound b a same) at apart, addr_eq_refl a))
]

swapped :
    (h : Hub) (p q : Peer)
    → IsValid h
    → addr_eq p.addr q.addr ≡ false
    → length h.peers + 2 ≤ h.max_peers
    → view (step (step h (registers p)) (registers q))
      ≡ view (step (step h (registers q)) (registers p))
unfolding first
swapped h p q v apart room =
    second-view h v p q apart room
    ∙ entered_swap (lookup p.addr h.peers) (lookup q.addr h.peers) p q (view h) apart
    ∙ sym (second-view h v q p (apart_sym p.addr q.addr apart) room)

-- On a registry with room for two more sessions, two registrations for different addresses are both
-- taken, and whatever calls follow are answered alike in either order of the two; where the order
-- in which the registry keeps its sessions is forgotten, and its counters are kept, both orders
-- give one and the same registry.
pub registrations_commute :
    (h : Hub) (v : IsValid h) (p q : Peer) (cs : List Call)
    → addr_eq p.addr q.addr ≡ false
    → length h.peers + 2 ≤ h.max_peers
    → (answers h (registers p ∷ registers q ∷ []) ≡ true ∷ true ∷ [])
      × (answers h (registers p ∷ registers q ∷ cs) ≡ answers h (registers q ∷ registers p ∷ cs))
      × (call (registers q) (call (registers p) (Quot.mk (h, v)))
          ≡ call (registers p) (call (registers q) (Quot.mk (h, v))))
unfolding answers first call
registrations_commute h v p q cs apart room =
    let same = swapped h p q v apart room in
    let back = apart_sym p.addr q.addr apart in
    let valid = λ (a b : Peer).
      step-IsValid (step h (registers a)) (registers b) (step-IsValid h (registers a) v) in
    let later =
      run-view (step (step h (registers p)) (registers q))
        (step (step h (registers q)) (registers p)) cs (valid p q) (valid q p) same in
    (
      both_taken h v p q apart room [],
      both_taken h v p q apart room cs
          ∙ ap (λ bs. true ∷ true ∷ bs) later.0
          ∙ sym (both_taken h v q p back room cs),
      Quot.sound (
        same,
        levels h v p q apart room
            ∙ welcomed_swap (lookup q.addr h.peers) (lookup p.addr h.peers) h.metrics
            ∙ sym (levels h v q p back room),
      ),
    )
