-- ===== src/Fares/Durations.antt =====
-- internal/fareprovider/duffel.go: the parser of ISO 8601 durations. An int is the word that holds it.
use flight_circle_search.Base.{
  ℕ, ◌+◌, ◌-◌, ◌*◌, ◌%◌, ◌≡◌, refl, true, false, Option, none, some, [], ◌∷◌, ◌++◌, append_assoc,
  append-nil, ap, ◌∙◌, Bytes, nat_eq, ◌==◌, bytes_eq, codes, if◌then◌else◌, word_mul, arith,
  Bool-cases, inl, inr, ◌&&◌,
}
use flight_circle_search.Dates.{is_digit}

-- The loop of `atoiSafe`.
unfoldable pub atoi_from : ℕ → Bytes → Option ℕ
atoi_from n [] = some n
atoi_from n (c ∷ s) =
    let rest = atoi_from ((n * 10 + (c - b'0')) % 18446744073709551616) s in
    if is_digit c then rest else none

unfoldable pub atoi_safe : Bytes → Option ℕ
atoi_safe [] = none
atoi_safe (c ∷ s) = atoi_from 0 (c ∷ s)

abbrev pub or_else : Option ℕ → ℕ → ℕ
or_else none n = n
or_else (some k) n = k

-- The loop over the bytes; `before` is `rest[:i]`.
unfoldable pub scan : Bytes → Bytes → ℕ → ℕ → ℕ × ℕ
scan before [] hours minutes = (hours, minutes)
scan before (c ∷ rest) hours minutes =
    let hour = scan [] rest (or_else (atoi_safe before) hours) minutes in
    let minute = scan [] rest hours (or_else (atoi_safe before) minutes) in
    let on = scan (before ++ c ∷ []) rest hours minutes in
    if c == b'H' then hour else if c == b'M' then minute else on

abbrev pub to_duration : ℕ × ℕ → ℕ
to_duration (hours, minutes) =
    (word_mul hours 3600000000000 + word_mul minutes 60000000000) % 18446744073709551616

unfoldable pub parse_iso_duration : Bytes → ℕ
parse_iso_duration (p ∷ t ∷ c ∷ rest) =
    if p == b'P' && t == b'T' then to_duration (scan [] (c ∷ rest) 0 0) else 0
parse_iso_duration _ = 0

digit_read :
    (n c : ℕ) (digits : Bytes) {k : ℕ}
    → atoi_from n (c ∷ digits) ≡ some k
    → (is_digit c ≡ true)
      × (atoi_from ((n * 10 + (c - b'0')) % 18446744073709551616) digits ≡ some k)
unfolding atoi_from
digit_read n c digits h = elim (Bool-cases (is_digit c)) [
  | inl q ↦ (q, rw q at h)
  | inr q ↦ cc (rw q at h)
]

no_marker : (c : ℕ) → is_digit c ≡ true → ((c == b'H') ≡ false) × ((c == b'M') ≡ false)
unfolding is_digit
no_marker c h = (ground arith, ground arith)

scan_digit :
    (before rest : Bytes) (c hours minutes : ℕ)
    → is_digit c ≡ true
    → scan before (c ∷ rest) hours minutes ≡ scan (before ++ c ∷ []) rest hours minutes
unfolding scan
scan_digit before rest c hours minutes h = let (not_h, not_m) = no_marker c h in rw (not_h, not_m)

scan_hour :
    (before rest : Bytes) (hours minutes : ℕ)
    → scan before (b'H' ∷ rest) hours minutes
      ≡ scan [] rest (or_else (atoi_safe before) hours) minutes
unfolding scan
scan_hour before rest hours minutes = refl

scan_minute :
    (before rest : Bytes) (hours minutes : ℕ)
    → scan before (b'M' ∷ rest) hours minutes
      ≡ scan [] rest hours (or_else (atoi_safe before) minutes)
unfolding scan
scan_minute before rest hours minutes = refl

scan_end : (before : Bytes) (hours minutes : ℕ) → scan before [] hours minutes ≡ (hours, minutes)
unfolding scan
scan_end before hours minutes = refl

scan-digits :
    (before digits rest : Bytes) (n : ℕ) {k : ℕ} (hours minutes : ℕ)
    → atoi_from n digits ≡ some k
    → scan before (digits ++ rest) hours minutes ≡ scan (before ++ digits) rest hours minutes
scan-digits before [] rest n hours minutes h = rw (append-nil before)
scan-digits before (c ∷ digits) rest n hours minutes h =
    let (digit, later) = digit_read n c digits h in
    scan_digit before (digits ++ rest) c hours minutes digit
    ∙ scan-digits (before ++ c ∷ []) digits rest _ hours minutes later
    ∙ ap (λ x. scan x rest hours minutes) (append_assoc before (c ∷ []) digits)

from_safe : (digits : Bytes) {k : ℕ} → atoi_safe digits ≡ some k → atoi_from 0 digits ≡ some k
unfolding atoi_safe
from_safe [] h = ground arith
from_safe (c ∷ digits) h = h

scan_both :
    (hours minutes : Bytes) {h m : ℕ}
    → atoi_safe hours ≡ some h
    → atoi_safe minutes ≡ some m
    → scan [] (hours ++ (codes "H" ++ (minutes ++ codes "M"))) 0 0 ≡ (h, m)
scan_both hours minutes {h} {m} p q =
    scan-digits [] hours (codes "H" ++ (minutes ++ codes "M")) 0 0 0 (from_safe hours p)
    ∙ scan_hour hours (minutes ++ codes "M") 0 0
    ∙ ap (λ x. scan [] (minutes ++ codes "M") (or_else x 0) 0) p
    ∙ scan-digits [] minutes (codes "M") 0 h 0 (from_safe minutes q)
    ∙ scan_minute minutes [] h 0
    ∙ ap (λ x. scan [] [] h (or_else x 0)) q
    ∙ scan_end [] h m

-- A duration of hours and minutes, each a sequence of digits, is read as that many hours and minutes, in words.
pub parse_iso_duration_lem :
    (hours minutes : Bytes) {h m : ℕ}
    → atoi_safe hours ≡ some h
    → atoi_safe minutes ≡ some m
    → parse_iso_duration (codes "PT" ++ (hours ++ (codes "H" ++ (minutes ++ codes "M"))))
      ≡ (word_mul h 3600000000000 + word_mul m 60000000000) % 18446744073709551616
unfolding parse_iso_duration
parse_iso_duration_lem [] minutes p q = ap to_duration (scan_both [] minutes p q)
parse_iso_duration_lem (c ∷ hours) minutes p q = ap to_duration (scan_both (c ∷ hours) minutes p q)
