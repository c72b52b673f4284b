-- ===== src/Dates/Text.antt =====
-- Parsing and printing dates.
use flight_circle_search.Base.{
  ℕ, zero, suc, ◌+◌, ◌-◌, ◌*◌, ◌/◌, ◌%◌, ◌≤◌, ◌<◌, ◌≡◌, refl, ◌∙◌, ap, true, Option, none, some,
  List, [], ◌∷◌, ◌++◌, Bytes, bytes_eq, bytes_beq, arith, replicate, drop, bytes_beq_iff,
}
use flight_circle_search.Dates.{
  Date, digits, dash, days_in, check_date, parse_date, format_date, matches, date_regex, Class,
  digit, hyphen, ◌>>=◌,
}

-- A day of the calendar whose year has at most four digits.
pub record IsDate (d : Date) : Type 0 where
  pub year_fits : d.year ≤ 9999
  pub month_low : 1 ≤ d.month
  pub month_high : d.month ≤ 12
  pub day_low : 1 ≤ d.day
  pub day_high : d.day ≤ days_in d.month d.year

pub days_in-le : (m y : ℕ) → days_in m y ≤ 31
unfolding days_in
days_in-le m y = ground arith

digits_two :
    (n : ℕ) (s : Bytes)
    → n < 100
    → digits 2 0 ((b'0' + n / 10 % 10) ∷ (b'0' + n % 10) ∷ s) ≡ some (n, s)
unfolding digits
digits_two n s h = ground arith

digits_four :
    (n : ℕ) (s : Bytes)
    → n ≤ 9999
    → digits 4 0 (
        (b'0' + n / 1000 % 10) ∷ (b'0' + n / 100 % 10) ∷ (b'0' + n / 10 % 10) ∷ (b'0' + n % 10) ∷ s)
      ≡ some (n, s)
unfolding digits
digits_four n s h = ground arith

check_date-IsDate :
    (y m d : ℕ) (s : Bytes) {t : Date}
    → y ≤ 9999
    → check_date y m d s ≡ some t
    → IsDate t × (s ≡ [])
unfolding check_date
check_date-IsDate y m d s f h = ground (arith, bytes_beq_iff s [])

check_date_of : (d : Date) → IsDate d → check_date d.year d.month d.day [] ≡ some d
unfolding check_date bytes_beq
check_date_of d v = ground arith

>>=-eq-some :
    {A B : Type 0} (o : Option A) (f : A → Option B) {b : B}
    → (o >>= f) ≡ some b
    → (a : A) × (o ≡ some a) × (f a ≡ some b)
>>=-eq-some none f h = cc
>>=-eq-some (some a) f h = (a, refl, h)

digits-matches :
    (n acc : ℕ) (s : Bytes) {v : ℕ} {r : Bytes} (ks : List Class)
    → digits n acc s ≡ some (v, r)
    → matches (replicate n digit ++ ks) s ≡ matches ks r
unfolding digits matches
digits-matches zero acc s ks h = ground arith
digits-matches (suc n) acc [] ks h = cc
digits-matches (suc n) acc (c ∷ s) {v} {r} ks h =
    ground (arith, digits-matches n (acc * 10 + (c - b'0')) s {v = v} {r = r} ks)

dash-matches :
    (s : Bytes) {r : Bytes} (ks : List Class)
    → dash s ≡ some r
    → matches (hyphen ∷ ks) s ≡ matches ks r
unfolding dash matches
dash-matches [] ks h = cc
dash-matches (c ∷ s) ks h = ground arith

-- The largest number that n more digits can make of a number.
abbrev nines : ℕ → ℕ → ℕ
nines zero acc = acc
nines (suc n) acc = nines n (acc * 10 + 9)

digits-le-nines :
    (n acc top : ℕ) (s : Bytes) (v : ℕ) (r : Bytes)
    → acc ≤ top
    → digits n acc s ≡ some (v, r)
    → v ≤ nines n top
unfolding digits
digits-le-nines zero acc top s v r f h = ground arith
digits-le-nines (suc n) acc top [] v r f h = cc
digits-le-nines (suc n) acc top (c ∷ s) v r f h =
    ground (arith, digits-le-nines n (acc * 10 + (c - b'0')) (top * 10 + 9) s v r)

digits_four-le : (s : Bytes) {v : ℕ} {r : Bytes} → digits 4 0 s ≡ some (v, r) → v ≤ 9999
digits_four-le s {v} {r} h = digits-le-nines 4 0 0 s v r (omega arith) h

-- The steps of a successful parse.
record Parsed (s : Bytes) (d : Date) : Type 0 where
  year : ℕ
  month : ℕ
  day : ℕ
  s1 : Bytes
  s2 : Bytes
  s3 : Bytes
  s4 : Bytes
  s5 : Bytes
  year_read : digits 4 0 s ≡ some (year, s1)
  dash_read : dash s1 ≡ some s2
  month_read : digits 2 0 s2 ≡ some (month, s3)
  dash_read' : dash s3 ≡ some s4
  day_read : digits 2 0 s4 ≡ some (day, s5)
  checked : check_date year month day s5 ≡ some d

parse_date-Parsed : (s : Bytes) {d : Date} → parse_date s ≡ some d → Parsed s d
unfolding parse_date
parse_date-Parsed s h =
    let ((y, s1), h1, k1) = >>=-eq-some (digits 4 0 s) _ h in
    let (s2, h2, k2) = >>=-eq-some (dash s1) _ k1 in
    let ((m, s3), h3, k3) = >>=-eq-some (digits 2 0 s2) _ k2 in
    let (s4, h4, k4) = >>=-eq-some (dash s3) _ k3 in
    let ((d, s5), h5, k5) = >>=-eq-some (digits 2 0 s4) _ k4 in
    record {
      year = y;
      month = m;
      day = d;
      s1 = s1;
      s2 = s2;
      s3 = s3;
      s4 = s4;
      s5 = s5;
      year_read = h1;
      dash_read = h2;
      month_read = h3;
      dash_read' = h4;
      day_read = h5;
      checked = k5;
    }

-- What is printed for a day of the calendar reads back as that day.
pub parse_date-format_date : (d : Date) → IsDate d → parse_date (format_date d) ≡ some d
unfolding format_date parse_date dash
parse_date-format_date d v = rw (digits_four d.year _ v.year_fits) (
    rw (digits_two d.month _ (omega arith))
      (rw (digits_two d.day [] (omega (arith, days_in-le d.month d.year))) (check_date_of d v)))

-- The pattern that is tested before parsing rejects no text that parses.
pub parse_date-matches :
    (s : Bytes) {d : Date} → parse_date s ≡ some d → matches date_regex s ≡ true
parse_date-matches s h =
    let p = parse_date-Parsed s h in
    digits-matches 4 0 s (drop 4 date_regex) p.year_read
    ∙ dash-matches p.s1 (drop 5 date_regex) p.dash_read
    ∙ digits-matches 2 0 p.s2 (drop 7 date_regex) p.month_read
    ∙ dash-matches p.s3 (drop 8 date_regex) p.dash_read'
    ∙ digits-matches 2 0 p.s4 [] p.day_read
    ∙ ap (matches [])
        (check_date-IsDate p.year p.month p.day p.s5 (digits_four-le s p.year_read) p.checked).1
    ∙ unfold matches in refl

-- Whatever parses is a day of the calendar, with a year of at most four digits.
pub parse_date-IsDate : (s : Bytes) {d : Date} → parse_date s ≡ some d → IsDate d
parse_date-IsDate s h =
    let p = parse_date-Parsed s h in
    (check_date-IsDate p.year p.month p.day p.s5 (digits_four-le s p.year_read) p.checked).0
