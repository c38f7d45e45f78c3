-- ===== src/Metrics/Decimal.antt =====
-- `%d` of `fmt` for an `int64`. A number has fewer digits than it counts, which is the fuel.
use veilink.Prelude.{
  sym, le_or_lt, ◌≡◌, ◌+◌, ◌*◌, ◌/◌, ◌%◌, ◌≤◌, ◌<◌, ◌∙◌, ap, refl, arith, ℕ, suc, zero, true, false,
  [], ◌∷◌, ◌++◌, Bytes, ltb, ℤ, pos, negsuc, inl, inr,
}

-- Every digit is put before those that follow it.
pub put_digits : ℕ → ℕ → Bytes → Bytes
put_digits zero n out = (b'0' + n) ∷ out
put_digits (suc fuel) n out = elim (ltb 9 n) [
  | true ↦ put_digits fuel (n / 10) ((b'0' + n % 10) ∷ out)
  | false ↦ (b'0' + n) ∷ out
]

unfoldable pub show_nat : ℕ → Bytes
unfolding put_digits
show_nat n = put_digits n n []

unfoldable pub show_int : ℤ → Bytes
show_int (pos n) = show_nat n
show_int (negsuc n) = b'-' ∷ show_nat (suc n)

-- A round, on more than one digit and on the first.
carries :
    (fuel n : ℕ) (out : Bytes)
    → 9 < n
    → put_digits (suc fuel) n out ≡ put_digits fuel (n / 10) ((b'0' + n % 10) ∷ out)
unfolding put_digits
carries fuel n out more = ground arith

halts : (fuel n : ℕ) (out : Bytes) → n ≤ 9 → put_digits fuel n out ≡ (b'0' + n) ∷ out
unfolding put_digits
halts zero n out last = refl
halts (suc fuel) n out last = ground arith

read-digits {ℓ} :
    {A : Type ℓ} (read : ℕ → Bytes → A)
    → ((acc d : ℕ) (s : Bytes) → d < 10 → read acc ((b'0' + d) ∷ s) ≡ read (acc * 10 + d) s)
    → (fuel n : ℕ) (out : Bytes) → n ≤ fuel
    → read 0 (put_digits fuel n out) ≡ read n out
read-digits read digit zero n out h =
    ap (read 0) (halts zero n out (omega arith))
    ∙ digit 0 n out (omega arith)
    ∙ ap (λ m. read m out) (omega arith)
read-digits read digit (suc fuel) n out h = elim (le_or_lt n 9) [
  | inl last ↦
      ap (read 0) (halts (suc fuel) n out last)
      ∙ digit 0 n out (omega arith)
      ∙ ap (λ m. read m out) (omega arith)
  | inr more ↦
      ap (read 0) (carries fuel n out more)
      ∙ read-digits read digit fuel (n / 10) ((b'0' + n % 10) ∷ out) (omega arith)
      ∙ digit (n / 10) (n % 10) out (omega arith)
      ∙ ap (λ m. read m out) (omega arith)
]

append-digits :
    (fuel n : ℕ) (out t : Bytes) → put_digits fuel n out ++ t ≡ put_digits fuel n (out ++ t)
unfolding put_digits
append-digits zero n out t = refl
append-digits (suc fuel) n out t = elim (le_or_lt n 9) [
  | inl last ↦
      ap (λ s. s ++ t) (halts (suc fuel) n out last) ∙ sym (halts (suc fuel) n (out ++ t) last)
  | inr more ↦
      ap (λ s. s ++ t) (carries fuel n out more)
      ∙ append-digits fuel (n / 10) ((b'0' + n % 10) ∷ out) t
      ∙ sym (carries fuel n (out ++ t) more)
]

-- A reader that takes one digit at a time makes of the text of `n` what it makes of `n`.
pub read-show_nat {ℓ} :
    {A : Type ℓ} (read : ℕ → Bytes → A)
    → ((acc d : ℕ) (s : Bytes) → d < 10 → read acc ((b'0' + d) ∷ s) ≡ read (acc * 10 + d) s)
    → (n : ℕ) (rest : Bytes) → read 0 (show_nat n ++ rest) ≡ read n rest
unfolding show_nat
read-show_nat read digit n rest =
    ap (read 0) (append-digits n n [] rest) ∙ read-digits read digit n n rest (omega arith)
