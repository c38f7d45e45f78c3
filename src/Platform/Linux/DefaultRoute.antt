-- ===== src/Platform/Linux/DefaultRoute.antt =====
-- internal/platform/client_linux.go: which route `linuxDefaultRoute` takes.
use veilink.Prelude.{
  All-map, bytes_eq_iff, ◌⊎◌, ◌≢◌, inl, inr, ◌≡◌, ◌↔◌, refl, ap, arith, Bytes, List, [], ◌∷◌, ◌++◌,
  some, true, false, All, Bool-cases,
}
use veilink.Platform.Linux.{LinuxRoute, is_usable, default_route}

abbrev pub IsFirst : Bytes → List LinuxRoute → LinuxRoute → Type 0
IsFirst exclude rs r =
    (before after : List LinuxRoute) × (rs ≡ before ++ r ∷ after)
    × (is_usable exclude r ≡ true)
    × All (λ x. is_usable exclude x ≡ false) before

default_route-IsFirst :
    (exclude : Bytes) (rs : List LinuxRoute) (r : LinuxRoute)
    → default_route exclude rs ≡ some r
    → IsFirst exclude rs r
unfolding default_route
default_route-IsFirst exclude [] r e = cc
default_route-IsFirst exclude (x ∷ rs) r e = elim (Bool-cases (is_usable exclude x)) [
  | inl good ↦
      let same : x ≡ r = ground (arith, good) in
      ([], rs, ap (λ y. y ∷ rs) same, rw (← same) good, tt)
  | inr bad ↦
      let (before, after, split, good, worse) =
        default_route-IsFirst exclude rs r (ground (arith, bad)) in
      (x ∷ before, after, ap (λ ys. x ∷ ys) split, good, (bad, worse))
]

IsFirst-default_route :
    (exclude : Bytes) (before after : List LinuxRoute) (r : LinuxRoute)
    → is_usable exclude r ≡ true
    → All (λ x. is_usable exclude x ≡ false) before
    → default_route exclude (before ++ r ∷ after) ≡ some r
unfolding default_route
IsFirst-default_route exclude [] after r good worse = rw good refl
IsFirst-default_route exclude (x ∷ before) after r good worse =
    rw (worse.0) (IsFirst-default_route exclude before after r good worse.1)

-- `linuxDefaultRoute` takes a route if and only if it is the first of the list with a device that
-- is not the excluded one, a device that is not empty and a gateway that is not empty.
pub default_route_exact :
    (exclude : Bytes) (rs : List LinuxRoute) (r : LinuxRoute)
    → (default_route exclude rs ≡ some r) ↔ IsFirst exclude rs r
default_route_exact exclude rs r = (
  default_route-IsFirst exclude rs r,
  (λ (before, after, split, good, worse).
      rw split (IsFirst-default_route exclude before after r good worse)),
)

-- A default route for the packets to the server: the first of the list with a gateway and a device
-- that is not the tunnel.
pub record IsDefault (tunnel : Bytes) (routes : List LinuxRoute) (orig : LinuxRoute) : Type 0 where
  pub before : List LinuxRoute
  pub after : List LinuxRoute
  pub split : routes ≡ before ++ orig ∷ after
  pub other : orig.dev ≢ tunnel
  pub device : orig.dev ≢ []
  pub gateway : orig.gateway ≢ []
  pub first : All (λ r. (r.dev ≡ tunnel) ⊎ ((r.dev ≡ []) ⊎ (r.gateway ≡ []))) before

unusable :
    (tunnel : Bytes) (rs : List LinuxRoute)
    → All (λ r. is_usable tunnel r ≡ false) rs
    → All (λ r. (r.dev ≡ tunnel) ⊎ ((r.dev ≡ []) ⊎ (r.gateway ≡ []))) rs
unusable tunnel rs h =
    All-map _ _ rs
      (λ r bad.
        ground
          (arith, bad, bytes_eq_iff r.dev tunnel, bytes_eq_iff r.dev [], bytes_eq_iff r.gateway []))
      h

pub default_route-IsDefault :
    (tunnel : Bytes) (routes : List LinuxRoute) (orig : LinuxRoute)
    → default_route tunnel routes ≡ some orig
    → IsDefault tunnel routes orig
default_route-IsDefault tunnel routes orig e =
    let (before, after, split, good, worse) = (default_route_exact tunnel routes orig).0 e in
    record {
      before = before;
      after = after;
      split = split;
      other = ground (arith, good, bytes_eq_iff orig.dev tunnel);
      device = ground (arith, good, bytes_eq_iff orig.dev []);
      gateway = ground (arith, good, bytes_eq_iff orig.gateway []);
      first = unusable tunnel before worse;
    }
