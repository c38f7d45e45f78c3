-- ===== src/Logging/Names.antt =====
-- internal/logging/logging.go: which names are accepted.
use veilink.Prelude.{
  Bool-cases, ap, ◌∙◌, ◌≡◌, ◌↔◌, refl, arith, inl, inr, Bytes, codes, bytes_eq, bytes_eq_iff, ok,
  Result-cases,
}
use veilink.Config.{Log}
use veilink.Logging.{
  Level, debug, info, warn, error, Format, json, text, Logger, to_lower, new_logger, level_of,
  format_of,
}

abbrev pub level_name : Level → Bytes
level_name debug = codes "debug"
level_name info = codes "info"
level_name warn = codes "warn"
level_name error = codes "error"

abbrev pub format_name : Format → Bytes
format_name json = codes "json"
format_name text = codes "text"

level_of-level_name : (s : Bytes) (l : Level) → level_of s ≡ ok l → s ≡ level_name l
level_of-level_name s l e = elim (Bool-cases (bytes_eq s (codes "debug"))) [
  | inl a ↦ ground (arith, a, bytes_eq_iff s (codes "debug"))
  | inr a ↦ elim (Bool-cases (bytes_eq s (codes "info"))) [
    | inl b ↦ ground (arith, a, b, bytes_eq_iff s (codes "info"))
    | inr b ↦ elim (Bool-cases (bytes_eq s (codes "warn"))) [
      | inl c ↦ ground (arith, a, b, c, bytes_eq_iff s (codes "warn"))
      | inr c ↦ ground (arith, a, b, c, bytes_eq_iff s (codes "error"))
    ]
  ]
]

level_name-level_of : (l : Level) → level_of (level_name l) ≡ ok l
level_name-level_of debug = refl
level_name-level_of info = refl
level_name-level_of warn = refl
level_name-level_of error = refl

format_of-format_name : (s : Bytes) (f : Format) → format_of s ≡ ok f → s ≡ format_name f
format_of-format_name s f e =
    ground (arith, bytes_eq_iff s (codes "json"), bytes_eq_iff s (codes "text"))

format_name-format_of : (f : Format) → format_of (format_name f) ≡ ok f
format_name-format_of json = refl
format_name-format_of text = refl

pub new_logger_exact :
    (mapped : Bytes → Bytes) (c : Log) (g : Logger)
    → (new_logger mapped c ≡ ok g) ↔ (
        (to_lower mapped c.level ≡ level_name g.level)
        × (to_lower mapped c.format ≡ format_name g.format))
unfolding new_logger
new_logger_exact mapped c g = (
  (λ e. elim (Result-cases (level_of (to_lower mapped c.level))) [
    | inl (l, a) ↦ elim (Result-cases (format_of (to_lower mapped c.format))) [
      | inl (f, b) ↦
          let same : record { level = l; format = f } ≡ g = ground (arith, a, b) in
          (
            level_of-level_name _ l a ∙ ap (λ x. level_name x.level) same,
            format_of-format_name _ f b ∙ ap (λ x. format_name x.format) same,
          )
      | inr bad ↦ absurd (ground (arith, a, bad))
    ]
    | inr bad ↦ absurd (ground (arith, bad))
  ]),
  (λ (a, b).
      rw (a, b, new_logger)
        (rw (level_name-level_of g.level, format_name-format_of g.format) refl)),
)
