-- ===== src/Platform/Windows/Standing.antt =====
-- internal/platform/client_windows.go: what the commands of the scripts leave on the system. A cmdlet
-- with "New" or "Set" makes a thing, one with "Remove" or "Reset" takes away those that it names.
use veilink.Prelude.{
  ◌≡◌, refl, arith, Bool, true, false, ◌&&◌, List, [], ◌∷◌, ◌++◌, Option, none, some, All, Bytes,
  bytes_eq, if◌then◌else◌, Bool-cases, All-append, inl, inr,
}
use mathlib.Core.List.{append-nil}
use veilink.Platform.Windows.{
  Cmdlet, new_route, remove_route, new_address, remove_address, set_dns, reset_dns,
}

-- A route with its interface and its next hop, an address of an interface, or its DNS servers.
pub data Thing : Type 0 where
  route : Bytes → Bytes → Bytes → Thing
  address : Bytes → Bytes → Thing
  dns : Bytes → List Bytes → Thing

abbrev pub made_by : Cmdlet → List Thing
made_by (new_route prefix on hop) = route prefix on hop ∷ []
made_by (new_address a on) = address a on ∷ []
made_by (set_dns on servers) = dns on servers ∷ []
made_by _ = []

-- No next hop is any.
abbrev is_hop : Option Bytes → Bytes → Bool
is_hop none hop = true
is_hop (some h) hop = bytes_eq h hop

abbrev pub removed_by : Cmdlet → Thing → Bool
removed_by (remove_route p on h) (route prefix i hop) =
    bytes_eq p prefix && (bytes_eq on i && is_hop h hop)
removed_by (remove_address a on) (address b i) = bytes_eq a b && bytes_eq on i
removed_by (reset_dns on) (dns i servers) = bytes_eq on i
removed_by _ _ = false

unfoldable pub spared : Cmdlet → List Thing → List Thing
spared c [] = []
spared c (t ∷ ts) = let rest = spared c ts in if removed_by c t then rest else t ∷ rest

-- What stands after the commands, of what they made and what stood before.
unfoldable pub standing : List Cmdlet → List Thing → List Thing
standing [] ts = ts
standing (c ∷ cs) ts = standing cs (spared c ts ++ made_by c)

abbrev pub cleared_by : List Cmdlet → Thing → Bool
cleared_by [] t = false
cleared_by (c ∷ cs) t = if removed_by c t then true else cleared_by cs t

abbrev pub AllCleared : List Cmdlet → List Thing → Type 0
AllCleared cs = All (λ t. cleared_by cs t ≡ true)

abbrev pub MakeNothing : List Cmdlet → Type 0
MakeNothing = All (λ c. made_by c ≡ [])

spared-AllCleared :
    (c : Cmdlet) (cs : List Cmdlet) (ts : List Thing)
    → AllCleared (c ∷ cs) ts
    → AllCleared cs (spared c ts)
unfolding spared
spared-AllCleared c cs [] h = tt
spared-AllCleared c cs (t ∷ ts) h = elim (Bool-cases (removed_by c t)) [
  | inl gone ↦ rw gone (spared-AllCleared c cs ts h.1)
  | inr stays ↦ rw stays (rw stays at h.0, spared-AllCleared c cs ts h.1)
]

-- Where each thing is cleared, and nothing is made, nothing stands.
pub cleared-standing :
    (cs : List Cmdlet) (ts : List Thing) → MakeNothing cs → AllCleared cs ts → standing cs ts ≡ []
unfolding standing
cleared-standing [] [] m h = refl
cleared-standing [] (t ∷ ts) m h = absurd (ground (arith, h.0))
cleared-standing (c ∷ cs) ts m h =
    rw (m.0, append-nil (spared c ts))
      (cleared-standing cs (spared c ts) m.1 (spared-AllCleared c cs ts h))

AllCleared-spared :
    (cs : List Cmdlet) (c : Cmdlet) (ts : List Thing)
    → AllCleared cs ts
    → AllCleared cs (spared c ts)
unfolding spared
AllCleared-spared cs c [] h = tt
AllCleared-spared cs c (t ∷ ts) h = elim (Bool-cases (removed_by c t)) [
  | inl gone ↦ rw gone (AllCleared-spared cs c ts h.1)
  | inr stays ↦ rw stays (h.0, AllCleared-spared cs c ts h.1)
]

-- Commands whose things are all cleared leave only such things.
pub standing-AllCleared :
    (cs done : List Cmdlet) (ts : List Thing)
    → All (λ c. AllCleared cs (made_by c)) done
    → AllCleared cs ts
    → AllCleared cs (standing done ts)
unfolding standing
standing-AllCleared cs [] ts m h = h
standing-AllCleared cs (c ∷ done) ts m h =
    standing-AllCleared cs done (spared c ts ++ made_by c) m.1
      (All-append _ (spared c ts) (made_by c) (AllCleared-spared cs c ts h) m.0)

pub standing-append :
    (cs ds : List Cmdlet) (ts : List Thing) → standing (cs ++ ds) ts ≡ standing ds (standing cs ts)
unfolding standing
standing-append [] ds ts = refl
standing-append (c ∷ cs) ds ts = standing-append cs ds (spared c ts ++ made_by c)
