-- ===== src/Platform/Windows/Commas.antt =====
-- internal/platform/client_windows.go: a list of texts joined with commas, and split again.
use veilink.Prelude.{◌≡◌, ◌≢◌, ◌∙◌, ap, refl, false, List, [], ◌∷◌, ◌++◌, All, Bytes, codes, ◌==◌}
use veilink.Platform.Windows.{joined, split_commas}

-- No byte is a comma.
abbrev pub HasNoComma : Bytes → Type 0
HasNoComma = All (λ c. (c == b',') ≡ false)

split_one : (s : Bytes) → HasNoComma s → split_commas s ≡ s ∷ []
unfolding split_commas
split_one [] h = refl
split_one (c ∷ s) h = rw (h.0, split_one s h.1) refl

split_more :
    (s rest : Bytes)
    → HasNoComma s
    → split_commas (s ++ (codes "," ++ rest)) ≡ s ∷ split_commas rest
unfolding split_commas
split_more [] rest h = refl
split_more (c ∷ s) rest h = rw (h.0, split_more s rest h.1) refl

pub split-joined :
    (s : Bytes) (ss : List Bytes)
    → All HasNoComma (s ∷ ss)
    → split_commas (joined (s ∷ ss)) ≡ s ∷ ss
split-joined s [] h = split_one s h.0
split-joined s (t ∷ ss) h =
    split_more s (joined (t ∷ ss)) h.0 ∙ ap (λ rest. s ∷ rest) (split-joined t ss h.1)

pub joined-ne-nil : (s : Bytes) (ss : List Bytes) → s ≢ [] → joined (s ∷ ss) ≢ []
joined-ne-nil [] ss h e = absurd (h refl)
joined-ne-nil (c ∷ s) [] h e = cc
joined-ne-nil (c ∷ s) (t ∷ ss) h e = cc
