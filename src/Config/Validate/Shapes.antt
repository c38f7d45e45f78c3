-- ===== src/Config/Validate/Shapes.antt =====
-- internal/config/config.go: the shapes of the texts and times that `Validate` asks for, stated apart
-- from its tests.
use veilink.Prelude.{
  has_prefix, has_prefix-split, has_prefix-append, drop, concat, AllEmpty, bytes_eq_iff, List, Bool,
  bytes_eq, ◌≡◌, ◌≢◌, ◌⊎◌, ◌↔◌, ◌≤◌, refl, ap, arith, inl, inr, ℕ, ℤ, pos, negsuc, ltb_ℤ, leb, true,
  false, ◌&&◌, ◌==◌, Bool-cases, [], ◌∷◌, ◌++◌, All, Bytes, codes, length,
}
use veilink.Config.Validate.{
  has_query_or_fragment, bad_path, report, ConfigError, ends_in_slash, valid_char, valid_chars,
  valid_interface_name,
}

-- A duration of `n` or more.
abbrev pub AtLeast : ℤ → ℕ → Type 0
AtLeast d n = (m : ℕ) × (d ≡ pos m) × (n ≤ m)

pub not_below_exact : (d : ℤ) (n : ℕ) → (ltb_ℤ d (pos n) ≡ false) ↔ AtLeast d n
not_below_exact (pos m) n = (λ e. (m, refl, ground arith), λ (k, is, h). ground (arith, is, h))
not_below_exact (negsuc m) n =
    (λ e. absurd (ground arith), λ (k, is, h). absurd (ground (arith, is)))

-- A path that does not end in a slash.
abbrev pub IsNoFolder : Bytes → Type 0
IsNoFolder p = (init : Bytes) → p ≢ (init ++ codes "/")

folder-ends : (init : Bytes) → ends_in_slash (init ++ codes "/") ≡ true
unfolding ends_in_slash
folder-ends [] = refl
folder-ends (c ∷ []) = refl
folder-ends (c ∷ d ∷ s) = folder-ends (d ∷ s)

ends-folder : (p : Bytes) → ends_in_slash p ≡ true → (init : Bytes) × (p ≡ init ++ codes "/")
unfolding ends_in_slash
ends-folder [] e = absurd (ground arith)
ends-folder (c ∷ []) e = ([], ground arith)
ends-folder (c ∷ d ∷ s) e = let (init, is) = ends-folder (d ∷ s) e in (c ∷ init, ap (λ t. c ∷ t) is)

pub ends_in_slash_exact : (p : Bytes) → (ends_in_slash p ≡ false) ↔ IsNoFolder p
ends_in_slash_exact p = (
  (λ e init is. absurd (ground (arith, e, is, folder-ends init))),
  (λ h. elim (Bool-cases (ends_in_slash p)) [
    | inl bad ↦ let (init, is) = ends-folder p bad in absurd (h init is)
    | inr good ↦ good
  ]),
)

-- A letter, a digit, a point, an underscore, a dash or a space.
abbrev pub IsNameByte : ℕ → Type 0
IsNameByte b =
    ((97 ≤ b) × (b ≤ 122))
    ⊎ (((65 ≤ b) × (b ≤ 90))
        ⊎ (((48 ≤ b) × (b ≤ 57)) ⊎ ((b ≡ 46) ⊎ ((b ≡ 95) ⊎ ((b ≡ 45) ⊎ (b ≡ 32))))))

valid_char-IsNameByte : (b : ℕ) → valid_char b ≡ true → IsNameByte b
valid_char-IsNameByte b e = elim (Bool-cases (leb 97 b && leb b 122)) [
  | inl low ↦ inl (ground (arith, low), ground (arith, low))
  | inr no_low ↦ inr (elim (Bool-cases (leb 65 b && leb b 90)) [
    | inl up ↦ inl (ground (arith, up), ground (arith, up))
    | inr no_up ↦ inr (elim (Bool-cases (leb 48 b && leb b 57)) [
      | inl digit ↦ inl (ground (arith, digit), ground (arith, digit))
      | inr no_digit ↦ inr (elim (Bool-cases (b == 46)) [
        | inl is ↦ inl (ground (arith, is))
        | inr no_point ↦ inr (elim (Bool-cases (b == 95)) [
          | inl is ↦ inl (ground (arith, is))
          | inr no_line ↦ inr (elim (Bool-cases (b == 45)) [
            | inl is ↦ inl (ground (arith, is))
            | inr no_dash ↦ inr (ground arith)
          ])
        ])
      ])
    ])
  ])
]

IsNameByte-valid_char : (b : ℕ) → IsNameByte b → valid_char b ≡ true
IsNameByte-valid_char b (inl h) = ground (arith, h)
IsNameByte-valid_char b (inr (inl h)) = ground (arith, h)
IsNameByte-valid_char b (inr (inr (inl h))) = ground (arith, h)
IsNameByte-valid_char b (inr (inr (inr (inl h)))) = rw h refl
IsNameByte-valid_char b (inr (inr (inr (inr (inl h))))) = rw h refl
IsNameByte-valid_char b (inr (inr (inr (inr (inr (inl h)))))) = rw h refl
IsNameByte-valid_char b (inr (inr (inr (inr (inr (inr h)))))) = rw h refl

valid_chars-All : (s : Bytes) → valid_chars s ≡ true → All IsNameByte s
unfolding valid_chars
valid_chars-All [] e = tt
valid_chars-All (b ∷ s) e =
    (valid_char-IsNameByte b (ground arith), valid_chars-All s (ground arith))

All-valid_chars : (s : Bytes) → All IsNameByte s → valid_chars s ≡ true
unfolding valid_chars
All-valid_chars [] h = refl
All-valid_chars (b ∷ s) h = ground (arith, IsNameByte-valid_char b h.0, All-valid_chars s h.1)

-- A name of 1 to 64 bytes, each of which may stand in it.
pub record IsInterfaceName (s : Bytes) : Type 0 where
  pub some_byte : 1 ≤ length s
  pub short : length s ≤ 64
  pub plain : All IsNameByte s

pub valid_interface_name_exact : (s : Bytes) → (valid_interface_name s ≡ true) ↔ IsInterfaceName s
unfolding valid_interface_name
valid_interface_name_exact s = (
  (λ e. record {
    some_byte = ground arith;
    short = ground arith;
    plain = valid_chars-All s (ground arith);
  }),
  (λ h. ground (arith, h.some_byte, h.short, All-valid_chars s h.plain)),
)

pub differ : (a b : Bytes) → (bytes_eq a b ≡ false) ↔ (a ≢ b)
differ a b = (
  (λ e same. absurd (ground (arith, e, (bytes_eq_iff a b).1 same))),
  (λ h. elim (Bool-cases (bytes_eq a b)) [
    | inl same ↦ absurd (h ((bytes_eq_iff a b).0 same))
    | inr e ↦ e
  ]),
)

pub unreported : (b : Bool) (e : ConfigError) → b ≡ false → report b e ≡ []
unreported b e h = rw h refl

pub joined_empty {ℓ} : {A : Type ℓ} (xss : List (List A)) → AllEmpty xss → concat xss ≡ []
joined_empty [] h = refl
joined_empty (xs ∷ xss) h = rw (h.0) (joined_empty xss h.1)

-- A byte that starts neither a query nor a fragment.
abbrev pub IsPathByte : ℕ → Type 0
IsPathByte b = (b ≢ b'?') × (b ≢ b'#')

path_bytes : (p : Bytes) → has_query_or_fragment p ≡ false → All IsPathByte p
unfolding has_query_or_fragment
path_bytes [] e = tt
path_bytes (b ∷ p) e = ((ground arith, ground arith), path_bytes p (ground arith))

plain_bytes : (p : Bytes) → All IsPathByte p → has_query_or_fragment p ≡ false
unfolding has_query_or_fragment
plain_bytes [] h = refl
plain_bytes (b ∷ p) h = ground (arith, h.0, plain_bytes p h.1)

-- A path below the root that is no folder and none of the server's own pages.
pub record IsTunnelPath (p : Bytes) : Type 0 where
  pub rooted : (rest : Bytes) × (p ≡ codes "/" ++ rest)
  pub no_folder : IsNoFolder p
  pub not_health : p ≢ codes "/healthz"
  pub not_ready : p ≢ codes "/readyz"
  pub path_only : All IsPathByte p

pub bad_path_exact : (p : Bytes) → (bad_path p ≡ false) ↔ IsTunnelPath p
unfolding bad_path
bad_path_exact p = (
  (λ e. record {
    rooted = (drop 1 p, has_prefix-split p (codes "/") (ground arith));
    no_folder = (ends_in_slash_exact p).0 (ground arith);
    not_health = (differ p (codes "/healthz")).0 (ground arith);
    not_ready = (differ p (codes "/readyz")).0 (ground arith);
    path_only = path_bytes p (ground arith);
  }),
  (λ h.
      let behind : has_prefix p (codes "/") ≡ true =
        rw (h.rooted.1) (has_prefix-append (codes "/") h.rooted.0) in
      ground (
        arith,
        behind,
        (differ p (codes "/")).1 (h.no_folder []),
        (ends_in_slash_exact p).1 h.no_folder,
        (differ p (codes "/healthz")).1 h.not_health,
        (differ p (codes "/readyz")).1 h.not_ready,
        plain_bytes p h.path_only,
      )),
)
