-- ===== src/Prelude/Strings.antt =====
-- Go's byte slices and strings: lists of bytes, a byte being a number below 256.
use Prim.Native.Char.{code}
use Prim.Native.Nat.{ℕ, ◌<◌}
use Prim.Native.String.{String}
use mathlib.Core.Path.{◌≡◌, refl}
use mathlib.Core.Logic.{◌↔◌}
use mathlib.Core.Bool.{Bool, true, false, ◌&&◌}
use mathlib.Core.List.{List, [], ◌∷◌, ◌++◌}
use native.Mathlib.Omega.{arith}
use veilink.Prelude.Tests.{◌==◌}
use veilink.Prelude.Lists.{length, drop}

abbrev pub Bytes : Type 0
Bytes = List ℕ

-- The bytes of a literal of ASCII characters.
abbrev pub codes : String → Bytes
codes String.[] = []
codes (String.◌∷◌ c s) = code c ∷ codes s

-- Every entry is a byte.
abbrev pub IsBytes : Bytes → Type 0
IsBytes [] = Unit {0}
IsBytes (b ∷ bs) = (b < 256) × IsBytes bs

pub IsBytes-append : (a b : Bytes) → IsBytes a → IsBytes b → IsBytes (a ++ b)
IsBytes-append [] b ha hb = hb
IsBytes-append (x ∷ a) b ha hb = (ha.0, IsBytes-append a b ha.1 hb)

-- `a == b` on strings.
abbrev pub bytes_eq : Bytes → Bytes → Bool
bytes_eq [] [] = true
bytes_eq [] (b ∷ bs) = false
bytes_eq (a ∷ as') [] = false
bytes_eq (a ∷ as') (b ∷ bs) = (a == b) && bytes_eq as' bs

pub bytes_eq_sound : (a b : Bytes) → bytes_eq a b ≡ true → a ≡ b
bytes_eq_sound [] [] h = refl
bytes_eq_sound [] (b ∷ bs) h = cc
bytes_eq_sound (a ∷ as') [] h = cc
bytes_eq_sound (a ∷ as') (b ∷ bs) h = ground (arith, bytes_eq_sound as' bs)

pub bytes_eq_refl : (a : Bytes) → bytes_eq a a ≡ true
bytes_eq_refl [] = refl
bytes_eq_refl (a ∷ as') = ground (arith, bytes_eq_refl as')

pub bytes_eq_iff : (a b : Bytes) → (bytes_eq a b ≡ true) ↔ (a ≡ b)
bytes_eq_iff a b = (bytes_eq_sound a b, λ e. backwards e)
  where
    backwards : a ≡ b → bytes_eq a b ≡ true
    backwards e = rw (← e) (bytes_eq_refl a)

-- `strings.HasPrefix(s, p)`.
abbrev pub has_prefix : Bytes → Bytes → Bool
has_prefix s [] = true
has_prefix [] (c ∷ p) = false
has_prefix (b ∷ s) (c ∷ p) = (b == c) && has_prefix s p

pub has_prefix-append : (p s : Bytes) → has_prefix (p ++ s) p ≡ true
has_prefix-append [] s = refl
has_prefix-append (c ∷ p) s = ground (arith, has_prefix-append p s)

pub has_prefix-append_right : (s p t : Bytes) → has_prefix s p ≡ true → has_prefix (s ++ t) p ≡ true
has_prefix-append_right s [] t h = refl
has_prefix-append_right [] (c ∷ p) t h = cc
has_prefix-append_right (b ∷ s) (c ∷ p) t h = ground (arith, has_prefix-append_right s p t)

pub drop-append_right :
    (s p t : Bytes) → has_prefix s p ≡ true → drop (length p) (s ++ t) ≡ drop (length p) s ++ t
drop-append_right s [] t h = refl
drop-append_right [] (c ∷ p) t h = cc
drop-append_right (b ∷ s) (c ∷ p) t h = ground (arith, drop-append_right s p t)

pub has_prefix-split : (s p : Bytes) → has_prefix s p ≡ true → s ≡ p ++ drop (length p) s
has_prefix-split s [] h = refl
has_prefix-split [] (c ∷ p) h = cc
has_prefix-split (b ∷ s) (c ∷ p) h = ground (arith, has_prefix-split s p)

pub drop-append_self : (p s : Bytes) → drop (length p) (p ++ s) ≡ s
drop-append_self [] s = refl
drop-append_self (c ∷ p) s = drop-append_self p s
