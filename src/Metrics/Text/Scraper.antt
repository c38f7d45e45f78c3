-- ===== src/Metrics/Text/Scraper.antt =====
-- internal/metrics/metrics.go: a scraper of the text format, one byte at a time.
use veilink.Prelude.{
  ◌≡◌, ◌<◌, ◌+◌, ◌-◌, ◌*◌, ◌==◌, ◌∙◌, ap, sym, refl, arith, ℕ, zero, suc, Bool, true, false, List,
  [], ◌∷◌, ◌++◌, Bytes, ltb, if◌then◌else◌, ℤ, pos, negsuc, All, not, ◌||◌,
}
use mathlib.Core.List.{append-nil, append_assoc}
use veilink.Metrics.Decimal.{show_nat, show_int, read-show_nat}

-- Where a scraper stands: at the start of a line, in a comment, in a name, or in a value, with its sign
-- and its digits so far.
pub data State : Type 0 where
  at_start in_comment : State
  in_name : Bytes → State
  in_value : Bytes → Bool → ℕ → State

abbrev signed : Bool → ℕ → ℤ
signed false n = pos n
signed true zero = pos 0
signed true (suc n) = negsuc n

abbrev is_digit : ℕ → Bool
is_digit c = not (ltb c b'0' || ltb b'9' c)

unfoldable pub advance : State → ℕ → List (Bytes × ℤ) × State
advance at_start c = if c == b'#' then ([], in_comment) else ([], in_name (c ∷ []))
advance in_comment c = if c == 10 then ([], at_start) else ([], in_comment)
advance (in_name n) c = if c == b' ' then ([], in_value n false 0) else ([], in_name (n ++ c ∷ []))
advance (in_value n sign acc) c =
    if c == 10
    then ((n, signed sign acc) ∷ [], at_start)
    else if c == b'-'
    then ([], in_value n true acc)
    else if is_digit c
    then ([], in_value n sign (acc * 10 + (c - b'0')))
    else ([], in_comment)

unfoldable pub scrape : State → Bytes → List (Bytes × ℤ)
scrape st [] = []
scrape st (c ∷ s) = (advance st c).0 ++ scrape (advance st c).1 s

-- No byte is `x`.
abbrev pub Lacks : ℕ → Bytes → Type 0
Lacks x = All (λ c. (c == x) ≡ false)

pub skip_comment :
    (s rest : Bytes) → Lacks 10 s → scrape in_comment (s ++ 10 ∷ rest) ≡ scrape at_start rest
unfolding scrape advance
skip_comment [] rest h = refl
skip_comment (c ∷ s) rest h = rw (h.0) (skip_comment s rest h.1)

pub read_name :
    (n s rest : Bytes)
    → Lacks b' ' s
    → scrape (in_name n) (s ++ b' ' ∷ rest) ≡ scrape (in_value (n ++ s) false 0) rest
unfolding scrape advance
read_name n [] rest h = ap (λ x. scrape (in_value x false 0) rest) (sym (append-nil n))
read_name n (c ∷ s) rest h = rw (h.0) (
    read_name (n ++ c ∷ []) s rest h.1
    ∙ ap (λ x. scrape (in_value x false 0) rest) (append_assoc n (c ∷ []) s))

advance_digit :
    (n : Bytes) (sign : Bool) (acc d : ℕ)
    → d < 10
    → advance (in_value n sign acc) (b'0' + d) ≡ ([], in_value n sign (acc * 10 + d))
unfolding advance
advance_digit n sign acc d h =
    let line : ((b'0' + d) == 10) ≡ false = ground arith in
    let dash : ((b'0' + d) == b'-') ≡ false = ground arith in
    let digit : is_digit (b'0' + d) ≡ true = ground arith in
    let same : b'0' + d - b'0' ≡ d = omega arith in rw (line, dash, digit, same) refl

read_digit :
    (n : Bytes) (sign : Bool) (acc d : ℕ) (s : Bytes)
    → d < 10
    → scrape (in_value n sign acc) ((b'0' + d) ∷ s) ≡ scrape (in_value n sign (acc * 10 + d)) s
unfolding scrape
read_digit n sign acc d s h = rw (advance_digit n sign acc d h) refl

read_nat :
    (n : Bytes) (sign : Bool) (k : ℕ) (rest : Bytes)
    → scrape (in_value n sign 0) (show_nat k ++ 10 ∷ rest)
      ≡ (n, signed sign k) ∷ scrape at_start rest
unfolding scrape advance
read_nat n sign k rest =
    read-show_nat (λ acc s. scrape (in_value n sign acc) s) (read_digit n sign) k (10 ∷ rest)

pub read_value :
    (n : Bytes) (v : ℤ) (rest : Bytes)
    → scrape (in_value n false 0) (show_int v ++ 10 ∷ rest) ≡ (n, v) ∷ scrape at_start rest
unfolding show_int scrape advance
read_value n (pos k) rest = read_nat n false k rest
read_value n (negsuc k) rest = read_nat n true (suc k) rest
