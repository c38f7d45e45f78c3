-- ===== src/Config/Load/Accepted.antt =====
-- internal/config/config.go: which files are loaded, and as what.
use veilink.Prelude.{
  subst, sym, ap, ◌∙◌, bit_and, ◌^◌, ◌-◌, le_or_lt, Bool-cases, ◌≡◌, ◌↔◌, ◌⊎◌, ◌/◌, ◌%◌, ◌<◌, ◌&&◌,
  ◌||◌, refl, arith, inl, inr, ℕ, zero, suc, Bool, true, false, not, Option, none, some, List, [],
  ◌∷◌, ok, Result-cases, ◌==◌,
}
use veilink.Config.{
  ServerConfig, ClientConfig, Readers, apply_server_defaults, apply_client_defaults,
}
use veilink.Config.Validate.{ConfigError, validate_server, validate_client}
use veilink.Config.Load.{
  File, is_too_broad, check_mode, load_strict, validated, load_server, load_client,
}

-- `test` on every number below a bound.
every : (ℕ → Bool) → ℕ → Bool
every test zero = true
every test (suc k) = test k && every test k

every-below : (test : ℕ → Bool) (bound m : ℕ) → every test bound ≡ true → m < bound → test m ≡ true
unfolding every
every-below test zero m all small = absurd (omega arith)
every-below test (suc k) m all small = elim (Bool-cases (test k)) [
  | inr bad ↦ absurd (ground (arith, bad))
  | inl here ↦ elim (le_or_lt k m) [
    | inl last ↦ subst (λ x. test x ≡ true) (omega arith) here
    | inr less ↦ every-below test k m (ground (arith, here)) less
  ]
]

-- The permissions of a mode that are let through: others have none, the owner may not execute, and
-- the group has none, or may read where `group` says so.
pub record IsNarrowMode (group : Bool) (m : ℕ) : Type 0 where
  pub others : m % 8 ≡ 0
  pub owner : m / 64 % 2 ≡ 0
  pub members : (m / 8 % 8 ≡ 0) ⊎ ((group ≡ true) × (m / 8 % 8 ≡ 4))

-- The greatest mode for the loader of either file, 0o640 or 0o600.
abbrev pub max_perm_of : Bool → ℕ
max_perm_of true = 416
max_perm_of false = 384

abbrev is_narrow : Bool → ℕ → Bool
is_narrow group m =
    (m % 8 == 0) && ((m / 64 % 2 == 0) && ((m / 8 % 8 == 0) || (group && (m / 8 % 8 == 4))))

agree : Bool → Bool → Bool
agree true b = not b
agree false b = b

agree_sound : (a b : Bool) → agree a b ≡ true → (a ≡ false) ↔ (b ≡ true)
unfolding agree
agree_sound true b h = (λ e. cc, λ e. ground arith)
agree_sound false b h = (λ e. h, λ e. refl)

server_table : every (λ m. agree (is_too_broad m 416) (is_narrow true m)) 512 ≡ true
unfolding every agree is_too_broad
server_table = refl

client_table : every (λ m. agree (is_too_broad m 384) (is_narrow false m)) 512 ≡ true
unfolding every agree is_too_broad
client_table = refl

is_narrow-IsNarrowMode : (group : Bool) (m : ℕ) → is_narrow group m ≡ true → IsNarrowMode group m
is_narrow-IsNarrowMode group m h = record {
  others = ground (arith, h);
  owner = ground (arith, h);
  members = elim (Bool-cases (m / 8 % 8 == 0)) [
    | inl none_set ↦ inl (ground (arith, none_set))
    | inr some_set ↦ inr (ground (arith, h, some_set), ground (arith, h, some_set))
  ];
}

IsNarrowMode-is_narrow : (group : Bool) (m : ℕ) → IsNarrowMode group m → is_narrow group m ≡ true
IsNarrowMode-is_narrow group m h = elim h.members [
  | inl none_set ↦ ground (arith, h.others, h.owner, none_set)
  | inr (may, reads) ↦ ground (arith, h.others, h.owner, may, reads)
]

low_bits :
    (group : Bool) (m : ℕ)
    → (is_too_broad (m % 512) (max_perm_of group) ≡ false) ↔ (is_narrow group (m % 512) ≡ true)
low_bits true m = agree_sound _ _ (every-below _ 512 (m % 512) server_table (omega arith))
low_bits false m = agree_sound _ _ (every-below _ 512 (m % 512) client_table (omega arith))

is_too_broad_low : (m max_perm : ℕ) → is_too_broad (m % 512) max_perm ≡ is_too_broad m max_perm
unfolding is_too_broad
is_too_broad_low m max_perm = ap (λ x. not (bit_and x (2 ^ 32 - 1 - max_perm) == 0)) (omega arith)

is_narrow_low : (group : Bool) (m : ℕ) → is_narrow group (m % 512) ≡ is_narrow group m
is_narrow_low group m =
    let others : m % 512 % 8 ≡ m % 8 = omega arith in
    let owner : m % 512 / 64 % 2 ≡ m / 64 % 2 = omega arith in
    let members : m % 512 / 8 % 8 ≡ m / 8 % 8 = omega arith in rw (others, owner, members) refl

-- The test of the loader lets through the narrow modes and no others.
pub is_too_broad_exact :
    (group : Bool) (m : ℕ) → (is_too_broad m (max_perm_of group) ≡ false) ↔ IsNarrowMode group m
is_too_broad_exact group m = (
  (λ h. is_narrow-IsNarrowMode group m (
      sym (is_narrow_low group m)
      ∙ (low_bits group m).0 (is_too_broad_low m (max_perm_of group) ∙ h))),
  (λ h.
      sym (is_too_broad_low m (max_perm_of group))
      ∙ (low_bits group m).1 (is_narrow_low group m ∙ IsNarrowMode-is_narrow group m h)),
)

-- A file that is read as one document, with a narrow mode unless the program runs on Windows.
pub record IsReadAs {A : Type 0} (windows group : Bool) (file : Option (File A)) (a : A)
    : Type 0 where
  pub found : File A
  pub there : file ≡ some found
  pub narrow : (windows ≡ true) ⊎ ((m : ℕ) × (found.mode ≡ some m) × IsNarrowMode group m)
  pub first : found.first ≡ some a
  pub whole : found.at_end ≡ true

abbrev IsNarrow : Bool → Bool → Option ℕ → Type 0
IsNarrow windows group mode = (windows ≡ true) ⊎ ((m : ℕ) × (mode ≡ some m) × IsNarrowMode group m)

check_mode-IsNarrow :
    (windows group : Bool) (mode : Option ℕ)
    → check_mode windows (max_perm_of group) mode ≡ ok tt
    → IsNarrow windows group mode
check_mode-IsNarrow true group mode e = inl refl
check_mode-IsNarrow false group none e = absurd (ground arith)
check_mode-IsNarrow false group (some m) e =
    inr (m, refl, (is_too_broad_exact group m).0 (ground arith))

IsNarrow-check_mode :
    (windows group : Bool) (mode : Option ℕ)
    → IsNarrow windows group mode
    → check_mode windows (max_perm_of group) mode ≡ ok tt
IsNarrow-check_mode true group mode h = refl
IsNarrow-check_mode false group mode (inl e) = absurd (ground arith)
IsNarrow-check_mode false group mode (inr (m, is, small)) =
    rw is (rw ((is_too_broad_exact group m).1 small) refl)

load_strict-IsReadAs :
    {A : Type 0} (windows group : Bool) (file : Option (File A)) (a : A)
    → load_strict windows file (max_perm_of group) ≡ ok a
    → IsReadAs windows group file a
unfolding load_strict
load_strict-IsReadAs windows group none a e = absurd (ground arith)
load_strict-IsReadAs windows group (some f) a e = record {
  found = f;
  there = refl;
  narrow = check_mode-IsNarrow windows group f.mode (ground arith);
  first = ground arith;
  whole = ground arith;
}

IsReadAs-load_strict :
    {A : Type 0} (windows group : Bool) (file : Option (File A)) (a : A)
    → IsReadAs windows group file a
    → load_strict windows file (max_perm_of group) ≡ ok a
unfolding load_strict
IsReadAs-load_strict windows group file a h =
    rw (h.there)
      (ground (arith, IsNarrow-check_mode windows group h.found.mode h.narrow, h.first, h.whole))

validated-ok :
    {A : Type 0} (errors : A → List ConfigError) (a b : A)
    → validated a (errors a) ≡ ok b
    → (b ≡ a) × (errors b ≡ [])
validated-ok errors a b e = go (errors a) refl e
  where
    go : (es : List ConfigError) → errors a ≡ es → validated a es ≡ ok b → (b ≡ a) × (errors b ≡ [])
    go [] is e = (ground arith, ground (arith, is))
    go (x ∷ xs) is e = absurd (ground arith)

-- LoadServer gives a configuration if and only if the file opens; the program runs on Windows, or
-- the file's mode gives others nothing, its group nothing or reading, and its owner no execution;
-- the file has one YAML document with known fields only; and the configuration is the document's
-- with the defaults and passes Validate.
pub load_server_exact :
    (r : Readers) (windows : Bool) (file : Option (File ServerConfig)) (c : ServerConfig)
    → (load_server r windows file ≡ ok c) ↔ (
        (written : ServerConfig) × IsReadAs windows true file written
        × (c ≡ apply_server_defaults written)
        × (validate_server r c ≡ []))
unfolding load_server
load_server_exact r windows file c = (
  (λ e. elim (Result-cases (load_strict windows file 416)) [
    | inl (written, l) ↦ (
      written,
      load_strict-IsReadAs windows true file written l,
      (validated-ok (validate_server r) (apply_server_defaults written) c
          (rw (l, load_server) at e)).0,
      (validated-ok (validate_server r) (apply_server_defaults written) c
          (rw (l, load_server) at e)).1,
    )
    | inr bad ↦ absurd (ground (arith, bad))
  ]),
  (λ (written, h, same, valid).
      rw same (ground (arith, IsReadAs-load_strict windows true file written h, same, valid))),
)

-- A configuration of the client is loaded if and only if it is in the file.
pub load_client_exact :
    (r : Readers) (windows : Bool) (file : Option (File ClientConfig)) (c : ClientConfig)
    → (load_client r windows file ≡ ok c) ↔ (
        (written : ClientConfig) × IsReadAs windows false file written
        × (c ≡ apply_client_defaults written)
        × (validate_client r c ≡ []))
unfolding load_client
load_client_exact r windows file c = (
  (λ e. elim (Result-cases (load_strict windows file 384)) [
    | inl (written, l) ↦ (
      written,
      load_strict-IsReadAs windows false file written l,
      (validated-ok (validate_client r) (apply_client_defaults written) c
          (rw (l, load_client) at e)).0,
      (validated-ok (validate_client r) (apply_client_defaults written) c
          (rw (l, load_client) at e)).1,
    )
    | inr bad ↦ absurd (ground (arith, bad))
  ]),
  (λ (written, h, same, valid).
      rw same (ground (arith, IsReadAs-load_strict windows false file written h, same, valid))),
)
