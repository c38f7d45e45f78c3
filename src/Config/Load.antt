-- ===== src/Config/Load.antt =====
-- internal/config/config.go: `LoadServer` and `LoadClient`. The file system and the YAML decoder are
-- parameters: a file is what the calls of them give.
pub mod Accepted
mod Tests
use veilink.Prelude.{
  ◌≡◌, ◌-◌, ◌^◌, ◌%◌, ℕ, Bool, true, false, not, Option, none, some, List, [], ◌∷◌, Result, ok, err,
  panic, ◌>>=◌, ◌>>◌, fail_if, ◌==◌, bit_and, if◌then◌else◌,
}
use veilink.Config.{
  ServerConfig, ClientConfig, Readers, apply_server_defaults, apply_client_defaults,
}
use veilink.Config.Validate.{ConfigError, validate_server, validate_client}

pub data LoadError : Type 0 where
  not_opened not_stated too_broad not_decoded trailing_document : LoadError
  invalid : List ConfigError → LoadError

-- The mode that `Stat` gives, what the decoder makes of the first document, where it knows every field,
-- and whether the second decoding is at the end of the file.
pub record File (A : Type 0) : Type 0 where
  pub mode : Option ℕ
  pub first : Option A
  pub at_end : Bool

-- `info.Mode().Perm()&^maxPerm != 0`: `Perm` gives the low nine bits of a mode.
unfoldable pub is_too_broad : ℕ → ℕ → Bool
is_too_broad mode max_perm = not (bit_and (mode % 512) (2 ^ 32 - 1 - max_perm) == 0)

abbrev pub check_perm : ℕ → Option ℕ → Result LoadError (Unit {0})
check_perm max_perm none = err not_stated
check_perm max_perm (some m) = fail_if (is_too_broad m max_perm) too_broad

abbrev pub check_mode : Bool → ℕ → Option ℕ → Result LoadError (Unit {0})
check_mode windows max_perm mode = if windows then ok tt else check_perm max_perm mode

abbrev pub decoded {ℓ} : {A : Type ℓ} → Option A → Result LoadError A
decoded none = err not_decoded
decoded (some a) = ok a

abbrev pub opened {ℓ} : {A : Type ℓ} → Option A → Result LoadError A
opened none = err not_opened
opened (some a) = ok a

-- `windows` is whether the program runs there.
pub load_strict : {A : Type 0} → Bool → Option (File A) → ℕ → Result LoadError A
load_strict windows file max_perm = do
  f ← opened file
  check_mode windows max_perm f.mode
  out ← decoded f.first
  fail_if (not f.at_end) trailing_document
  ok out

abbrev pub validated {ℓ} : {A : Type ℓ} → A → List ConfigError → Result LoadError A
validated a [] = ok a
validated a (e ∷ es) = err (invalid (e ∷ es))

pub load_server : Readers → Bool → Option (File ServerConfig) → Result LoadError ServerConfig
load_server r windows file = do
  cfg ← load_strict windows file 416
  validated (apply_server_defaults cfg) (validate_server r (apply_server_defaults cfg))

pub load_client : Readers → Bool → Option (File ClientConfig) → Result LoadError ClientConfig
load_client r windows file = do
  cfg ← load_strict windows file 384
  validated (apply_client_defaults cfg) (validate_client r (apply_client_defaults cfg))
