-- ===== src/Prelude/Lists.antt =====
-- Lists measured and indexed by native numbers, under the library's names, and lists used as the
-- buffers of Go: `copy` into a slice overwrites a part of a buffer in place.
use Prim.Native.Nat.{ℕ, zero, suc, ◌+◌}
use mathlib.Core.Path.{◌≡◌, refl, ap, ◌∙◌}
use mathlib.Core.List.{List, [], ◌∷◌, ◌++◌}
use mathlib.Core.Option.{Option, none, some}
use mathlib.Core.Bool.{Bool}
use veilink.Prelude.Tests.{if◌then◌else◌}
use native.Mathlib.Omega.{arith}

module _ {ℓ} {A : Type ℓ} where
  abbrev pub length : List A → ℕ
  length [] = 0
  length (x ∷ xs) = suc (length xs)

  abbrev pub get_elem? : List A → ℕ → Option A
  get_elem? [] i = none
  get_elem? (x ∷ xs) zero = some x
  get_elem? (x ∷ xs) (suc i) = get_elem? xs i

  abbrev pub drop : ℕ → List A → List A
  drop zero xs = xs
  drop (suc n) [] = []
  drop (suc n) (x ∷ xs) = drop n xs

  abbrev pub take : ℕ → List A → List A
  take zero xs = []
  take (suc n) [] = []
  take (suc n) (x ∷ xs) = x ∷ take n xs

  -- How many entries pass the test.
  abbrev pub tally : (A → Bool) → List A → ℕ
  tally test [] = 0
  tally test (a ∷ xs) = (if test a then 1 else 0) + tally test xs

  pub tally-append :
      (test : A → Bool) (xs ys : List A) → tally test (xs ++ ys) ≡ tally test xs + tally test ys
  tally-append test [] ys = omega arith
  tally-append test (x ∷ xs) ys = omega (arith, tally-append test xs ys)

  abbrev pub reverse : List A → List A
  reverse [] = []
  reverse (a ∷ xs) = reverse xs ++ a ∷ []

  abbrev pub replicate : ℕ → A → List A
  replicate zero a = []
  replicate (suc n) a = a ∷ replicate n a

  -- The lists joined.
  abbrev pub concat : List (List A) → List A
  concat [] = []
  concat (xs ∷ xss) = xs ++ concat xss

  pub append-eq-nil : (xs ys : List A) → xs ++ ys ≡ [] → (xs ≡ []) × (ys ≡ [])
  append-eq-nil [] ys h = (refl, h)
  append-eq-nil (x ∷ xs) ys h = cc

  -- Joined lists are empty if each of them is.
  abbrev pub AllEmpty : List (List A) → Type ℓ
  AllEmpty [] = Unit
  AllEmpty (xs ∷ xss) = (xs ≡ []) × AllEmpty xss

  pub concat-eq-nil : (xss : List (List A)) → concat xss ≡ [] → AllEmpty xss
  concat-eq-nil [] h = tt
  concat-eq-nil (xs ∷ xss) h =
      let (now, later) = append-eq-nil xs (concat xss) h in (now, concat-eq-nil xss later)

  pub length-append : (xs ys : List A) → length (xs ++ ys) ≡ length xs + length ys
  length-append [] ys = omega arith
  length-append (x ∷ xs) ys = omega (arith, length-append xs ys)

  pub length-replicate : (n : ℕ) (a : A) → length (replicate n a) ≡ n
  length-replicate zero a = refl
  length-replicate (suc n) a = ap suc (length-replicate n a)

  -- Go's `copy(dst, src)`: the shorter of the two lengths is copied.
  abbrev pub overlay : List A → List A → List A
  overlay dst [] = dst
  overlay [] (s ∷ src) = []
  overlay (d ∷ dst) (s ∷ src) = s ∷ overlay dst src

  -- `copy(dst[i:], src)`.
  abbrev pub copy_at : ℕ → List A → List A → List A
  copy_at zero dst src = overlay dst src
  copy_at (suc i) [] src = []
  copy_at (suc i) (d ∷ dst) src = d ∷ copy_at i dst src

  -- A buffer as long as the source is overwritten whole.
  pub overlay_whole : (dst src : List A) → length dst ≡ length src → overlay dst src ≡ src
  overlay_whole [] [] h = refl
  overlay_whole [] (s ∷ src) h = absurd (omega arith)
  overlay_whole (d ∷ dst) [] h = absurd (omega arith)
  overlay_whole (d ∷ dst) (s ∷ src) h = ap (◌∷◌ s) (overlay_whole dst src (omega arith))

  pub replicate-add : (m n : ℕ) (a : A) → replicate (m + n) a ≡ replicate m a ++ replicate n a
  replicate-add zero n a = ap (λ k. replicate k a) (zero_add n)
    where
      zero_add : (n : ℕ) → zero + n ≡ n
      zero_add n = omega arith
  replicate-add (suc m) n a =
      ap (λ k. replicate k a) (suc_add m n) ∙ ap (◌∷◌ a) (replicate-add m n a)
    where
      suc_add : (m n : ℕ) → suc m + n ≡ suc (m + n)
      suc_add m n = omega arith

module _ {ℓ κ} {A : Type ℓ} where
  -- The predicate holds of every entry.
  abbrev pub All : (A → Type κ) → List A → Type κ
  All P [] = Unit
  All P (x ∷ xs) = P x × All P xs

  -- The relation holds of every entry and each that follows it.
  abbrev pub AllPairs : (A → A → Type κ) → List A → Type κ
  AllPairs R [] = Unit
  AllPairs R (x ∷ xs) = All (R x) xs × AllPairs R xs

  pub All-map : (P Q : A → Type κ) (xs : List A) → ((x : A) → P x → Q x) → All P xs → All Q xs
  All-map P Q [] f h = tt
  All-map P Q (x ∷ xs) f h = (f x h.0, All-map P Q xs f h.1)

  pub All-append : (P : A → Type κ) (xs ys : List A) → All P xs → All P ys → All P (xs ++ ys)
  All-append P [] ys h k = k
  All-append P (x ∷ xs) ys h k = (h.0, All-append P xs ys h.1 k)

  pub All-zip :
      (P Q R : A → Type κ) (xs : List A)
      → ((x : A) → P x → Q x → R x)
      → All P xs
      → All Q xs
      → All R xs
  All-zip P Q R [] f h k = tt
  All-zip P Q R (x ∷ xs) f h k = (f x h.0 k.0, All-zip P Q R xs f h.1 k.1)
