-- ===== src/Dates/Calendar.antt =====
-- The order of dates and the next day.
use flight_circle_search.Base.{ℕ, ◌+◌, ◌≤◌, ◌<◌, ◌≡◌, true, false, arith}
use flight_circle_search.Dates.{Date, days_in, before, next_day, day_key}
use flight_circle_search.Dates.Text.{IsDate, days_in-le}

days_in-pos : (m y : ℕ) → 28 ≤ days_in m y
unfolding days_in
days_in-pos m y = ground arith

pub before_irrefl : (d : Date) → before d d ≡ false
unfolding before
before_irrefl d = ground arith

pub before_antisym : (a b : Date) → before a b ≡ false → before b a ≡ false → a ≡ b
unfolding before
before_antisym a b h k = ground arith

pub before_asym : (a b : Date) → before a b ≡ true → before b a ≡ false
unfolding before
before_asym a b h = ground arith

pub before-key : (a b : Date) → IsDate a → IsDate b → before a b ≡ true → day_key a < day_key b
unfolding before day_key
before-key a b va vb h = ground (arith, days_in-le a.month a.year, days_in-le b.month b.year)

pub next_day-key : (d : Date) → IsDate d → day_key d < day_key (next_day d)
unfolding next_day day_key
next_day-key d v = ground (arith, days_in-le d.month d.year)

pub before-next_day : (d : Date) → IsDate d → before d (next_day d) ≡ true
unfolding before next_day
before-next_day d v = ground arith

-- No day lies between a day and the next.
pub next_day-le :
    (d t : Date) → IsDate d → IsDate t → before d t ≡ true → before t (next_day d) ≡ false
unfolding before next_day
next_day-le d t v w h = grind arith

pub next_day-IsDate : (d t : Date) → IsDate d → IsDate t → before d t ≡ true → IsDate (next_day d)
unfolding before next_day
next_day-IsDate d t v w h = ground (
  arith,
  days_in-pos d.month d.year,
  days_in-pos (d.month + 1) d.year,
  days_in-pos 1 (d.year + 1),
)
