-- ===== src/Dates.antt =====
-- Calendar dates as package time reads and writes them in the layout `2006-01-02`, the pattern that
-- is tested before (the `dateRegex` of internal/jobengine/types.go and of
-- internal/fareprovider/travelpayouts.go), and the loop of `expandDateRange`
-- (internal/jobengine/service.go). A date that was parsed stands at midnight UTC, so times are
-- compared as dates, and `AddDate(0, 0, 1)` is the next day of the calendar.
pub mod Text
pub mod Calendar
pub mod Range
use flight_circle_search.Base.{
  ℕ, zero, suc, ◌+◌, ◌-◌, ◌*◌, ◌/◌, ◌%◌, Bool, true, false, not, ◌&&◌, ◌||◌, Option, none, some,
  List, [], ◌∷◌, ◌++◌, Bytes, bytes_eq, nat_eq, ◌==◌, ltb, leb, if◌then◌else◌, Result, ok, err,
}
use mathlib.Core.Option

pub record Date : Type 0 where
  pub year : ℕ
  pub month : ℕ
  pub day : ℕ

unfoldable pub is_digit : ℕ → Bool
is_digit c = leb b'0' c && leb c b'9'

-- Exactly n digits, and what follows them.
unfoldable pub digits : ℕ → ℕ → Bytes → Option (ℕ × Bytes)
unfolding is_digit
digits zero acc s = some (acc, s)
digits (suc n) acc [] = none
digits (suc n) acc (c ∷ s) =
    let rest = digits n (acc * 10 + (c - b'0')) s in if is_digit c then rest else none

unfoldable pub dash : Bytes → Option Bytes
dash [] = none
dash (c ∷ s) = if c == b'-' then some s else none

unfoldable pub is_leap : ℕ → Bool
is_leap y = y % 4 == 0 && (not (y % 100 == 0) || y % 400 == 0)

unfoldable pub days_in : ℕ → ℕ → ℕ
unfolding is_leap
days_in month year =
    if month == 2
    then (if is_leap year then 29 else 28)
    else if month == 4 || month == 6 || month == 9 || month == 11
    then 30
    else 31

-- The range checks behind the three numbers.
unfoldable pub check_date : ℕ → ℕ → ℕ → Bytes → Option Date
check_date y m d rest =
    if leb 1 m && leb m 12 && leb 1 d && leb d (days_in m y) && rest == []
    then some (record { year = y; month = m; day = d })
    else none

infixl 5 ◌>>=◌
abbrev pub ◌>>=◌ : {A B : Type 0} → Option A → (A → Option B) → Option B
none >>= f = none
some a >>= f = f a

-- `time.Parse("2006-01-02", s)`
unfoldable pub parse_date : Bytes → Option Date
parse_date s = do
  (y, s1) ← digits 4 0 s
  s2 ← dash s1
  (m, s3) ← digits 2 0 s2
  s4 ← dash s3
  (d, s5) ← digits 2 0 s4
  check_date y m d s5

-- `d.Format("2006-01-02")`, for a year below 10000
unfoldable pub format_date : Date → Bytes
format_date t =
    (b'0' + t.year / 1000 % 10)
    ∷ (b'0' + t.year / 100 % 10)
    ∷ (b'0' + t.year / 10 % 10)
    ∷ (b'0' + t.year % 10)
    ∷ b'-'
    ∷ (b'0' + t.month / 10 % 10)
    ∷ (b'0' + t.month % 10)
    ∷ b'-'
    ∷ (b'0' + t.day / 10 % 10)
    ∷ (b'0' + t.day % 10)
    ∷ []

-- `^\d{4}-\d{2}-\d{2}$`
pub data Class : Type 0 where
  digit : Class
  upper : Class
  hyphen : Class

unfoldable pub in_class : Class → ℕ → Bool
unfolding is_digit
in_class digit c = is_digit c
in_class upper c = leb b'A' c && leb c b'Z'
in_class hyphen c = c == b'-'

-- A pattern that is a fixed sequence of classes, anchored at both ends.
unfoldable pub matches : List Class → Bytes → Bool
unfolding in_class
matches [] [] = true
matches (k ∷ ks) (c ∷ s) = in_class k c && matches ks s
matches _ _ = false

abbrev pub date_regex : List Class
date_regex = digit ∷ digit ∷ digit ∷ digit ∷ hyphen ∷ digit ∷ digit ∷ hyphen ∷ digit ∷ digit ∷ []

abbrev pub iata_regex : List Class
iata_regex = upper ∷ upper ∷ upper ∷ []

-- `a.Before(b)`
unfoldable pub before : Date → Date → Bool
before a b =
    if a.year == b.year
    then (if a.month == b.month then ltb a.day b.day else ltb a.month b.month)
    else ltb a.year b.year

-- `d.AddDate(0, 0, 1)`
unfoldable pub next_day : Date → Date
next_day d =
    if ltb d.day (days_in d.month d.year)
    then record d { day = d.day + 1 }
    else if ltb d.month 12
    then record d { month = d.month + 1; day = 1 }
    else record { year = d.year + 1; month = 1; day = 1 }

pub data RangeError : Type 0 where
  bad_from bad_to to_before_from out_of_fuel : RangeError

-- The loop of `expandDateRange`; the fuel bounds its rounds.
unfoldable pub days_from : ℕ → Date → Date → Result RangeError (List Bytes)
days_from zero d last = err out_of_fuel
days_from (suc fuel) d last = elim (before last d) [
  | true ↦ ok []
  | false ↦ elim (days_from fuel (next_day d) last) [
    | ok rest ↦ ok (format_date d ∷ rest)
    | err e ↦ err e
  ]
]

-- A number that grows by at least one from a day to the next.
unfoldable pub day_key : Date → ℕ
day_key d = (d.year * 12 + d.month) * 31 + d.day

unfoldable pub expand_dates : Date → Date → Result RangeError (List Bytes)
expand_dates first last =
    if before last first
    then err to_before_from
    else days_from (day_key last - day_key first + 2) first last

unfoldable pub expand_date_range : Bytes → Bytes → Result RangeError (List Bytes)
expand_date_range from to = elim (parse_date from) [
  | none ↦ err bad_from
  | some first ↦ elim (parse_date to) [ none ↦ err bad_to | some last ↦ expand_dates first last ]
]
