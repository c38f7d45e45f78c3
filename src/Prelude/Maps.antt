-- ===== src/Prelude/Maps.antt =====
-- Go's maps as association lists, over keys with a test for equality.
use Prim.Native.Nat.{suc}
use mathlib.Core.Path.{◌≡◌, refl}
use mathlib.Core.Bool.{Bool, true}
use mathlib.Core.Option.{Option, none, some}
use mathlib.Core.List.{List, [], ◌∷◌}
use native.Mathlib.Omega.{arith}
use veilink.Prelude.Tests.{if◌then◌else◌}
use veilink.Prelude.Lists.{length}
use veilink.Prelude.Strings.{Bytes, bytes_eq, bytes_eq_sound, bytes_eq_refl}

-- What a key type brings: Go's `==`.
pub record Eq {ℓ} (K : Type ℓ) : Type ℓ where
  pub beq : K → K → Bool
  pub beq_sound : (a b : K) → beq a b ≡ true → a ≡ b
  pub beq_refl : (a : K) → beq a a ≡ true

instance abbrev pub bytes_Eq : Eq Bytes
bytes_Eq = record { beq = bytes_eq; beq_sound = bytes_eq_sound; beq_refl = bytes_eq_refl }

module _ {ℓ κ} {K : Type ℓ} {V : Type κ} ⦃e : Eq K⦄ where
  unfoldable pub lookup : K → List (K × V) → Option V
  lookup k [] = none
  lookup k ((j, v) ∷ m) = if e.beq j k then some v else lookup k m

  -- `m[k] = v`.
  unfoldable pub insert : K → V → List (K × V) → List (K × V)
  insert k v [] = (k, v) ∷ []
  insert k v ((j, w) ∷ m) = if e.beq j k then (k, v) ∷ m else (j, w) ∷ insert k v m

  -- `delete(m, k)`.
  unfoldable pub delete : K → List (K × V) → List (K × V)
  delete k [] = []
  delete k ((j, w) ∷ m) = if e.beq j k then delete k m else (j, w) ∷ delete k m

  -- No key stands twice.
  abbrev pub Distinct : List (K × V) → Type κ
  Distinct [] = Unit
  Distinct ((k, v) ∷ m) = (lookup k m ≡ none) × Distinct m

  pub lookup-insert :
      (k j : K) (v : V) (m : List (K × V))
      → lookup j (insert k v m) ≡ (if e.beq k j then some v else lookup j m)
  unfolding lookup insert
  lookup-insert k j v [] = refl
  lookup-insert k j v ((i, w) ∷ m) = ground (
    arith,
    e.beq_sound i k,
    e.beq_sound i j,
    e.beq_sound k j,
    e.beq_refl j,
    e.beq_refl k,
    e.beq_refl i,
    lookup-insert k j v m,
  )

  pub lookup-insert_self : (k : K) (v : V) (m : List (K × V)) → lookup k (insert k v m) ≡ some v
  lookup-insert_self k v m = ground (arith, lookup-insert k k v m, e.beq_refl k)

  pub lookup-delete :
      (k j : K) (m : List (K × V))
      → lookup j (delete k m) ≡ (if e.beq k j then none else lookup j m)
  unfolding lookup delete
  lookup-delete k j [] = ground arith
  lookup-delete k j ((i, w) ∷ m) = ground (
    arith,
    e.beq_sound i k,
    e.beq_sound i j,
    e.beq_sound k j,
    e.beq_refl j,
    e.beq_refl k,
    e.beq_refl i,
    lookup-delete k j m,
  )

  pub insert-Distinct : (k : K) (v : V) (m : List (K × V)) → Distinct m → Distinct (insert k v m)
  unfolding lookup insert
  insert-Distinct k v [] h = (refl, tt)
  insert-Distinct k v ((i, w) ∷ m) h = ground (
    arith,
    insert-Distinct k v m h.1,
    lookup-insert k i v m,
    e.beq_sound i k,
    e.beq_sound k i,
    e.beq_refl i,
    e.beq_refl k,
  )

  pub delete-Distinct : (k : K) (m : List (K × V)) → Distinct m → Distinct (delete k m)
  unfolding lookup delete
  delete-Distinct k [] h = tt
  delete-Distinct k ((i, w) ∷ m) h = ground (arith, delete-Distinct k m h.1, lookup-delete k i m)

  pub delete_absent : (k : K) (m : List (K × V)) → lookup k m ≡ none → delete k m ≡ m
  unfolding lookup delete
  delete_absent k [] h = refl
  delete_absent k ((i, w) ∷ m) h = ground (arith, delete_absent k m)

  pub length-insert_new :
      (k : K) (v : V) (m : List (K × V))
      → lookup k m ≡ none
      → length (insert k v m) ≡ suc (length m)
  unfolding lookup insert
  length-insert_new k v [] h = refl
  length-insert_new k v ((i, w) ∷ m) h = ground (arith, length-insert_new k v m)

  pub length-insert_old :
      (k : K) (v w : V) (m : List (K × V)) → lookup k m ≡ some w → length (insert k v m) ≡ length m
  unfolding lookup insert
  length-insert_old k v w [] h = cc
  length-insert_old k v w ((i, u) ∷ m) h = ground (arith, length-insert_old k v w m)

  pub length-delete :
      (k : K) (v : V) (m : List (K × V))
      → Distinct m
      → lookup k m ≡ some v
      → suc (length (delete k m)) ≡ length m
  unfolding lookup delete
  length-delete k v [] d h = cc
  length-delete k v ((i, u) ∷ m) d h =
      ground (arith, length-delete k v m d.1, delete_absent k m, e.beq_sound i k)
