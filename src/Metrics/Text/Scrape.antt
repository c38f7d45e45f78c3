-- ===== src/Metrics/Text/Scrape.antt =====
-- internal/metrics/metrics.go: a scraper of the text format reads every counter back.
use veilink.Prelude.{
  Bool-cases, inl, inr, ◌≡◌, ◌+◌, ◌==◌, ◌∙◌, ap, sym, refl, arith, ℕ, suc, Bool, true, false, List,
  [], ◌∷◌, ◌++◌, Bytes, codes, if◌then◌else◌, ℤ,
}
use mathlib.Core.List.{append-nil, append_assoc}
use veilink.Metrics.{Counters}
use veilink.Metrics.Decimal.{show_int}
use veilink.Metrics.Text.{
  load, at_least_zero, Sample, samples, text_of, write_samples, write_prometheus,
}
use veilink.Metrics.Text.Scraper.{
  at_start, in_value, scrape, advance, Lacks, skip_comment, read_name, read_value,
}

-- A sample whose name has no blank and starts with no "#", and whose help and type are on one line.
record IsPlain (v : Sample) : Type 0 where
  named : Lacks b' ' v.name
  told : Lacks 10 (codes " HELP " ++ (v.name ++ (codes " " ++ v.help)))
  typed : Lacks 10 (codes " TYPE " ++ (v.name ++ (codes " " ++ v.typ)))

text_of_lines :
    (v : Sample) (rest : Bytes)
    → text_of v ++ rest
      ≡ b'#'
        ∷ ((codes " HELP " ++ (v.name ++ (codes " " ++ v.help)))
            ++ 10
              ∷ b'#'
              ∷ ((codes " TYPE " ++ (v.name ++ (codes " " ++ v.typ)))
                  ++ 10 ∷ (v.name ++ b' ' ∷ (show_int v.val ++ 10 ∷ rest))))
unfolding text_of
text_of_lines v rest = simp append_assoc

scrape_name :
    (name rest : Bytes) (c : ℕ) (s : Bytes)
    → name ≡ c ∷ s
    → (c == b'#') ≡ false
    → Lacks b' ' name
    → scrape at_start (name ++ b' ' ∷ rest) ≡ scrape (in_value name false 0) rest
unfolding scrape advance
scrape_name [] rest c s e first h = cc
scrape_name (x ∷ name) rest c s e first h =
    let other : (x == b'#') ≡ false = ground arith in rw other (read_name (x ∷ []) name rest h.1)

scrape_sample :
    (v : Sample) (c : ℕ) (s rest : Bytes)
    → v.name ≡ c ∷ s
    → (c == b'#') ≡ false
    → IsPlain v
    → scrape at_start (text_of v ++ rest) ≡ (v.name, v.val) ∷ scrape at_start rest
unfolding scrape advance
scrape_sample v c s rest e first h =
    let value = show_int v.val ++ 10 ∷ rest in
    let last = v.name ++ b' ' ∷ value in
    let typ = codes " TYPE " ++ (v.name ++ (codes " " ++ v.typ)) in
    let help = codes " HELP " ++ (v.name ++ (codes " " ++ v.help)) in
    ap (scrape at_start) (text_of_lines v rest)
    ∙ skip_comment help (b'#' ∷ (typ ++ 10 ∷ last)) h.told
    ∙ skip_comment typ last h.typed
    ∙ scrape_name v.name value c s e first h.named
    ∙ read_value v.name v.val rest

scraped : List Sample → List (Bytes × ℤ)
scraped [] = []
scraped (v ∷ vs) = (v.name, v.val) ∷ scraped vs

-- Samples that a scraper can read.
abbrev AllPlain : List Sample → Type 0
AllPlain [] = Unit {0}
AllPlain (v ∷ vs) =
    ((c : ℕ) × (s : Bytes) × (v.name ≡ c ∷ s) × ((c == b'#') ≡ false) × IsPlain v) × AllPlain vs

texts : List Sample → Bytes
texts [] = []
texts (v ∷ vs) = text_of v ++ texts vs

scrape-texts : (vs : List Sample) → AllPlain vs → scrape at_start (texts vs) ≡ scraped vs
unfolding scraped texts scrape
scrape-texts [] h = refl
scrape-texts (v ∷ vs) ((c, s, e, first, plain), h) =
    scrape_sample v c s (texts vs) e first plain ∙ ap (λ x. (v.name, v.val) ∷ x) (scrape-texts vs h)

abbrev count : List Sample → ℕ
count [] = 0
count (v ∷ vs) = suc (count vs)

write_samples_all :
    (spare : ℕ) (vs : List Sample) (out : Bytes)
    → write_samples (count vs + spare) vs out ≡ (out ++ texts vs, true)
unfolding write_samples texts
write_samples_all spare [] out = ap (λ x. (x, true)) (sym (append-nil out))
write_samples_all spare (v ∷ vs) out =
    let more : suc (count vs) + spare ≡ suc (count vs + spare) = omega arith in
    rw (more, write_samples)
      (write_samples_all spare vs (out ++ text_of v)
        ∙ ap (λ x. (x, true)) (append_assoc out (text_of v) (texts vs)))

abbrev lacks : ℕ → Bytes → Bool
lacks x [] = true
lacks x (c ∷ s) = if c == x then false else lacks x s

lacks-Lacks : (x : ℕ) (s : Bytes) → lacks x s ≡ true → Lacks x s
lacks-Lacks x [] h = tt
lacks-Lacks x (c ∷ s) h = elim (Bool-cases (c == x)) [
  | inl same ↦ absurd (ground (arith, same))
  | inr other ↦ (other, lacks-Lacks x s (ground (arith, other)))
]

sample-IsPlain :
    (v : Sample)
    → lacks b' ' v.name ≡ true
    → lacks 10 (codes " HELP " ++ (v.name ++ (codes " " ++ v.help))) ≡ true
    → lacks 10 (codes " TYPE " ++ (v.name ++ (codes " " ++ v.typ))) ≡ true
    → IsPlain v
sample-IsPlain v a b c = record {
  named = lacks-Lacks b' ' v.name a;
  told = lacks-Lacks 10 (codes " HELP " ++ (v.name ++ (codes " " ++ v.help))) b;
  typed = lacks-Lacks 10 (codes " TYPE " ++ (v.name ++ (codes " " ++ v.typ))) c;
}

samples-AllPlain : (c : Counters) → AllPlain (samples c)
samples-AllPlain c = (
  (b'v', _, refl, refl, sample-IsPlain _ refl refl refl),
  (
    (b'v', _, refl, refl, sample-IsPlain _ refl refl refl),
    (
      (b'v', _, refl, refl, sample-IsPlain _ refl refl refl),
      (
        (b'v', _, refl, refl, sample-IsPlain _ refl refl refl),
        (
          (b'v', _, refl, refl, sample-IsPlain _ refl refl refl),
          (
            (b'v', _, refl, refl, sample-IsPlain _ refl refl refl),
            (
              (b'v', _, refl, refl, sample-IsPlain _ refl refl refl),
              (
                (b'v', _, refl, refl, sample-IsPlain _ refl refl refl),
                ((b'v', _, refl, refl, sample-IsPlain _ refl refl refl), tt),
              ),
            ),
          ),
        ),
      ),
    ),
  ),
)

-- Where the writer takes at least nine texts, WritePrometheus reports no error, and a scraper that
-- skips the comment lines of its text reads the nine names in their order, each with the value of
-- its counter as an int64, and the active sessions as zero where the counter is negative.
pub scrape-write_prometheus :
    (spare : ℕ) (c : Counters)
    → ((write_prometheus (9 + spare) c).1 ≡ true)
      × (scrape at_start (write_prometheus (9 + spare) c).0
          ≡ (codes "veilink_active_sessions", at_least_zero (load c.active_sessions))
            ∷ (codes "veilink_sessions_accepted_total", load c.accepted)
            ∷ (codes "veilink_auth_rejected_total", load c.auth_rejected)
            ∷ (codes "veilink_packets_from_tun_total", load c.packets_from_tun)
            ∷ (codes "veilink_packets_to_tun_total", load c.packets_to_tun)
            ∷ (codes "veilink_bytes_from_tun_total", load c.bytes_from_tun)
            ∷ (codes "veilink_bytes_to_tun_total", load c.bytes_to_tun)
            ∷ (codes "veilink_packets_dropped_total", load c.dropped)
            ∷ (codes "veilink_invalid_packets_total", load c.invalid)
            ∷ [])
unfolding write_prometheus scraped
scrape-write_prometheus spare c =
    let written = write_samples_all spare (samples c) [] in
    (
      ap (λ x. x.1) written,
      ap (λ x. scrape at_start x.0) written ∙ scrape-texts (samples c) (samples-AllPlain c),
    )
