-- ===== src/Logging.antt =====
-- internal/logging/logging.go: the level and the format that a configuration names. `strings.ToLower`
-- of a text that is not ASCII is a parameter.
pub mod Names
use veilink.Prelude.{
  ◌+◌, ℕ, Bool, true, false, ◌&&◌, List, [], ◌∷◌, map, Result, ok, err, ◌>>=◌, Bytes, codes,
  bytes_eq, leb, ltb, if◌then◌else◌,
}
use veilink.Config.{Log}

pub data Level : Type 0 where
  debug info warn error : Level

pub data Format : Type 0 where
  json text : Format

-- What the logger is made from.
pub record Logger : Type 0 where
  pub level : Level
  pub format : Format

pub data LogError : Type 0 where
  bad_level bad_format : LogError

abbrev pub lower : ℕ → ℕ
lower b = if leb b'A' b && leb b b'Z' then b + 32 else b

unfoldable pub is_ascii : Bytes → Bool
is_ascii [] = true
is_ascii (b ∷ s) = ltb b 128 && is_ascii s

unfoldable pub to_lower : (Bytes → Bytes) → Bytes → Bytes
unfolding is_ascii
to_lower mapped s = if is_ascii s then map lower s else mapped s

abbrev pub level_of : Bytes → Result LogError Level
level_of s =
    if bytes_eq s (codes "debug")
    then ok debug
    else if bytes_eq s (codes "info")
    then ok info
    else if bytes_eq s (codes "warn")
    then ok warn
    else if bytes_eq s (codes "error")
    then ok error
    else err bad_level

abbrev pub format_of : Bytes → Result LogError Format
format_of s =
    if bytes_eq s (codes "json")
    then ok json
    else if bytes_eq s (codes "text")
    then ok text
    else err bad_format

unfoldable pub new_logger : (Bytes → Bytes) → Log → Result LogError Logger
unfolding to_lower
new_logger mapped c = do
  level ← level_of (to_lower mapped c.level)
  format ← format_of (to_lower mapped c.format)
  ok (record { level = level; format = format })
