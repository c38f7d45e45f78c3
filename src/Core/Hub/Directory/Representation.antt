-- ===== src/Core/Hub/Directory/Representation.antt =====
-- internal/core/hub.go: the order in which the registry keeps its sessions cannot be seen. The registry
-- with that order forgotten, and its counters kept, is a quotient, on which every call is defined.
use mathlib.Core.Path.{fun_ext}
use mathlib.Core.Quot
use mathlib.Core.Quot.{Quot, Quot-set}
use veilink.Prelude.{
  arith, Bool-cases, inl, inr, none, some, leb, ltb, length, lookup, Option, if◌then◌else◌,
  Option-cases, ◌≡◌, ◌∙◌, ◌↔◌, refl, sym, ap, subst, Bool, true, false, List, [], ◌∷◌,
}
use veilink.Core.Hub.{
  close_all, receive, send, dispatch, unregister, register_finish, cancel, decrement,
  register_locked, Addr, is_peer, add, register, cancel_all, Counters, Peer, Hub,
}
use veilink.Netip.{addr_Eq}
use veilink.Core.Hub.Registry.{
  Call, registers, unregisters, receives, dispatches, closes_all, step, run, IsValid, step-IsValid,
}
use veilink.Core.Hub.Directory.{Directory, view, EndsAll, Promise}
use veilink.Core.Hub.Directory.Refinement.{answer, answers, step-Promise}

Bool-iff : (a b : Bool) → ((a ≡ true) ↔ (b ≡ true)) → a ≡ b
Bool-iff true b h = sym (h.0 refl)
Bool-iff false true h = h.1 refl
Bool-iff false false h = refl

EndsAll-unique : {d e f : Directory} → EndsAll d e → EndsAll d f → e ≡ f
EndsAll-unique {d} {e} {f} h k =
    let owner = h.owner ∙ sym k.owner in
    let sessions = h.sessions ∙ sym k.sessions in
    let limit = h.limit ∙ sym k.limit in
    let waiting = h.waiting ∙ sym k.waiting in
    let room = h.room ∙ sym k.room in
    let ended : e.ended ≡ f.ended = fun_ext (λ i.
      Bool-iff (e.ended i) (f.ended i)
        ((λ x. (k.ended i).1 ((h.ended i).0 x)), (λ x. (h.ended i).1 ((k.ended i).0 x)))) in
    λ i. record {
      owner = owner i;
      sessions = sessions i;
      limit = limit i;
      waiting = waiting i;
      room = room i;
      ended = ended i;
    }

-- What a directory promises of a call fixes the directory after it and the answer.
Promise-unique :
    (c : Call) (d e f : Directory) (a b : Bool)
    → Promise c d e a
    → Promise c d f b
    → (e ≡ f) × (a ≡ b)
Promise-unique (registers p) d e f a b h k = let s = sym h ∙ k in (ap (λ r. r.0) s, ap (λ r. r.1) s)
Promise-unique (unregisters p) d e f a b h k = (sym h.0 ∙ k.0, h.1 ∙ sym k.1)
Promise-unique (receives p) d e f a b h k = (sym h.0 ∙ k.0, h.1 ∙ sym k.1)
Promise-unique (dispatches to packet) d e f a b h k =
    let s = sym h ∙ k in (ap (λ r. r.0) s, ap (λ r. r.1) s)
Promise-unique closes_all d e f a b h k = (EndsAll-unique h.0 k.0, h.1 ∙ sym k.1)

pub step-view :
    (h h' : Hub) (c : Call)
    → IsValid h
    → IsValid h'
    → view h ≡ view h'
    → (view (step h c) ≡ view (step h' c)) × (answer h c ≡ answer h' c)
step-view h h' c v v' same =
    Promise-unique c (view h') _ _ _ _
      (subst (λ d. Promise c d (view (step h c)) (answer h c)) same (step-Promise h c v))
      (step-Promise h' c v')

pub run-view :
    (h h' : Hub) (cs : List Call)
    → IsValid h
    → IsValid h'
    → view h ≡ view h'
    → (answers h cs ≡ answers h' cs) × (view (run h cs) ≡ view (run h' cs))
unfolding run answers
run-view h h' [] v v' same = (refl, same)
run-view h h' (c ∷ cs) v v' same =
    let (after, told) = step-view h h' c v v' same in
    let (more, end) =
      run-view (step h c) (step h' c) cs (step-IsValid h c v) (step-IsValid h' c v') after in
    ((λ i. told i ∷ more i), end)

-- What a call makes of the counters, by what a directory says.
abbrev pub welcomed : Option Peer → Counters → Counters
welcomed none m = record m {
  active_sessions = add m.active_sessions 1;
  accepted = add m.accepted 1;
}
welcomed (some old) m = record m { accepted = add m.accepted 1 }

abbrev registered : Option Peer → Directory → Counters → Counters
registered none d m = if leb d.limit d.sessions then m else welcomed none m
registered (some old) d m = welcomed (some old) m

abbrev missed : Counters → Counters
missed m = record m { dropped = add m.dropped 1 }

abbrev dispatched : Option Peer → Directory → Counters → Counters
dispatched none d m = missed m
dispatched (some p) d m = if ltb (length (d.waiting p.id)) (d.room p.id) then m else missed m

abbrev pub counted : Call → Directory → Counters → Counters
counted (registers p) d m = registered (d.owner p.addr) d m
counted (unregisters p) d m =
    if is_peer (d.owner p.addr) p
    then record m { active_sessions = decrement m.active_sessions }
    else m
counted (receives p) d m = m
counted (dispatches a packet) d m = dispatched (d.owner a) d m
counted closes_all d m = m

cancel_all-metrics : (ps : List (Addr × Peer)) (h : Hub) → (cancel_all ps h).metrics ≡ h.metrics
unfolding cancel_all
cancel_all-metrics [] h = refl
cancel_all-metrics ((a, p) ∷ ps) h = cancel_all-metrics ps (cancel p h)

pub step-counted : (h : Hub) (c : Call) → (step h c).metrics ≡ counted c (view h) h.metrics
unfolding step register register_locked register_finish unregister dispatch send receive close_all
step-counted h (registers p) = elim (Option-cases (lookup p.addr h.peers)) [
  | inr (old, e) ↦ ground (arith, e)
  | inl new ↦ elim (Bool-cases (leb h.max_peers (length h.peers))) [
    | inl full ↦ ground (arith, new, full)
    | inr room ↦ ground (arith, new, room)
  ]
]
step-counted h (unregisters p) = elim (Bool-cases (is_peer (lookup p.addr h.peers) p)) [
  | inl mine ↦ ground (arith, mine)
  | inr other ↦ ground (arith, other)
]
step-counted h (receives p) = ground arith
step-counted h (dispatches a packet) = elim (Option-cases (lookup a h.peers)) [
  | inl new ↦ ground (arith, new)
  | inr (p, e) ↦ elim (Bool-cases (ltb (length (h.queues p.id)) (h.capacity p.id))) [
    | inl room ↦ ground (arith, e, room)
    | inr full ↦ ground (arith, e, full)
  ]
]
step-counted h closes_all = cancel_all-metrics h.peers h

-- One directory, and one set of counters.
abbrev pub Same : Hub → Hub → Type 0
Same h h' = (view h ≡ view h') × (h.metrics ≡ h'.metrics)

pub step-Same :
    (h h' : Hub) (c : Call) → IsValid h → IsValid h' → Same h h' → Same (step h c) (step h' c)
step-Same h h' c v v' (same, level) = (
  (step-view h h' c v v' same).0,
  step-counted h c ∙ (λ i. counted c (same i) (level i)) ∙ sym (step-counted h' c),
)

-- The hubs that can occur, and the registry as the hubs that show one directory and one set of
-- counters.
abbrev pub ValidHub : Type 0
ValidHub = (h : Hub) × IsValid h

abbrev pub Registry : Type 0
Registry = Quot (λ (h h' : ValidHub). Same h.0 h'.0)

unfoldable pub call : Call → Registry → Registry
call c =
    Quot.lift Quot-set (λ (h : ValidHub). Quot.mk (step h.0 c, step-IsValid h.0 c h.1))
      (λ h h' same. Quot.sound (step-Same h.0 h'.0 c h.1 h'.1 same))
