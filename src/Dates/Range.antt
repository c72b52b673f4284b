-- ===== src/Dates/Range.antt =====
-- The list of dates that `expandDateRange` returns.
use flight_circle_search.Base.{
  ℕ, zero, suc, ◌+◌, ◌-◌, ◌≤◌, ◌≡◌, sym, subst, ap, ◌≢◌, ◌↔◌, inl, inr, true, false, some, List, [],
  ◌∷◌, map, Memᴰ, Bytes, ok, err, arith, Bool-cases, Option-cases,
}
use flight_circle_search.Dates.{
  Date, before, next_day, day_key, format_date, parse_date, days_from, expand_dates,
  expand_date_range, out_of_fuel, to_before_from,
}
use flight_circle_search.Dates.Text.{IsDate, parse_date-IsDate}
use flight_circle_search.Dates.Calendar.{
  before_irrefl, before_antisym, before_asym, before-key, next_day-key, before-next_day,
  next_day-le, next_day-IsDate,
}

-- The list begins with the first day, ends with the last, and each day is followed by the next day of the calendar.
pub data Days : Date → Date → List Date → Type 0 where
  one : {d : Date} → Days d d (d ∷ [])
  more :
      {d last : Date} {ds : List Date}
      → before d last ≡ true
      → Days (next_day d) last ds
      → Days d last (d ∷ ds)

abbrev Spans : ℕ → Date → Date → Type 0
Spans fuel d last =
    (ds : List Date) × (days_from fuel d last ≡ ok (map format_date ds)) × Days d last ds

days_from_last : (fuel : ℕ) (d last : Date) → IsDate d → d ≡ last → 2 ≤ fuel → Spans fuel d last
unfolding days_from
days_from_last zero d last v e h = absurd (omega arith)
days_from_last (suc zero) d last v e h = absurd (omega arith)
days_from_last (suc (suc fuel)) d last v e h =
    subst (λ t. Spans (suc (suc fuel)) d t) e
      (d ∷ [], ground (arith, before_irrefl d, before-next_day d v), one)

days_from_more :
    (fuel : ℕ) (d last : Date)
    → before d last ≡ true
    → Spans fuel (next_day d) last
    → Spans (suc fuel) d last
unfolding days_from
days_from_more fuel d last h (ds, e, r) = (d ∷ ds, ground (arith, before_asym d last h), more h r)

days_from_Spans :
    (fuel : ℕ) (d last : Date)
    → IsDate d
    → IsDate last
    → before last d ≡ false
    → day_key last + 2 ≤ fuel + day_key d
    → Spans fuel d last
days_from_Spans zero d last v w h room = elim (Bool-cases (before d last)) [
  | inl lt ↦ absurd (omega (arith, before-key d last v w lt))
  | inr ge ↦ absurd (omega (arith, ap day_key (before_antisym d last ge h)))
]
days_from_Spans (suc fuel) d last v w h room = elim (Bool-cases (before d last)) [
  | inl lt ↦ days_from_more fuel d last lt (
      days_from_Spans fuel (next_day d) last (next_day-IsDate d last v w lt) w
        (next_day-le d last v w lt) (omega (arith, next_day-key d v)))
  | inr ge ↦
      let same : d ≡ last = before_antisym d last ge h in
      days_from_last (suc fuel) d last v same (omega (arith, ap day_key same))
]

expand_dates_spans :
    (first last : Date)
    → IsDate first
    → IsDate last
    → before last first ≡ false
    → (ds : List Date) × (expand_dates first last ≡ ok (map format_date ds)) × Days first last ds
unfolding expand_dates
expand_dates_spans first last v w h =
    rw h (days_from_Spans (day_key last - day_key first + 2) first last v w h (omega arith))

expand_dates_reversed :
    (first last : Date) → before last first ≡ true → expand_dates first last ≡ err to_before_from
unfolding expand_dates
expand_dates_reversed first last h = rw h

-- Two dates that parse, the second not before the first, give the list of all days from the first to the second, each printed; the fuel of the loop is enough.
pub expand_date_range-Days :
    (from to : Bytes) {first last : Date}
    → parse_date from ≡ some first
    → parse_date to ≡ some last
    → before last first ≡ false
    → (ds : List Date) × (expand_date_range from to ≡ ok (map format_date ds)) × Days first last ds
unfolding expand_date_range
expand_date_range-Days from to {first} {last} p q h =
    let (ds, e, r) =
      expand_dates_spans first last (parse_date-IsDate from p) (parse_date-IsDate to q) h in
    (ds, ground arith, r)

-- The loop over the days never runs out of its fuel, whatever the two arguments are.
pub expand_date_range_fuel : (from to : Bytes) → expand_date_range from to ≢ err out_of_fuel
unfolding expand_date_range
expand_date_range_fuel from to h = elim (Option-cases (parse_date from)) [
  | inl p ↦ ground arith
  | inr (first, p) ↦ elim (Option-cases (parse_date to)) [
    | inl q ↦ ground arith
    | inr (last, q) ↦ elim (Bool-cases (before last first)) [
      | inl r ↦ ground (arith, expand_dates_reversed first last r)
      | inr r ↦
          let (ds, e, _) =
            expand_dates_spans first last (parse_date-IsDate from p) (parse_date-IsDate to q) r in
          ground arith
    ]
  ]
]

Days-le :
    {d last : Date} {ds : List Date}
    → IsDate d
    → IsDate last
    → Days d last ds
    → before last d ≡ false
Days-le {d} v w one = before_irrefl d
Days-le {d} {last} v w (more lt r) = before_asym d last lt

le_trans : (a b c : Date) → before b a ≡ false → before c b ≡ false → before c a ≡ false
unfolding before
le_trans a b c h k = ground arith

mem-Days_to :
    {first last t : Date} {ds : List Date}
    → IsDate first
    → IsDate last
    → Days first last ds
    → Memᴰ t ds
    → IsDate t × (before t first ≡ false) × (before last t ≡ false)
mem-Days_to {first} {t = t} v w one (Memᴰ.head e) =
    rw e (v, before_irrefl first, before_irrefl first)
mem-Days_to v w one (Memᴰ.tail m) = elim m [ ]
mem-Days_to {first} {last} v w (more lt r) (Memᴰ.head e) =
    rw e (v, before_irrefl first, before_asym first last lt)
mem-Days_to {first} {last} {t} v w (more lt r) (Memᴰ.tail m) =
    let (ok_t, low, high) = mem-Days_to (next_day-IsDate first last v w lt) w r m in
    (
      ok_t,
      le_trans first (next_day first) t
          (before_asym first (next_day first) (before-next_day first v)) low,
      high,
    )

mem_Days_of :
    {first last t : Date} {ds : List Date}
    → IsDate first
    → IsDate last
    → Days first last ds
    → IsDate t
    → before t first ≡ false
    → before last t ≡ false
    → Memᴰ t ds
mem_Days_of {first} {t = t} v w one u low high = Memᴰ.head (sym (before_antisym first t high low))
mem_Days_of {first} {last} {t} v w (more lt r) u low high = elim (Bool-cases (before first t)) [
  | inl after ↦
      Memᴰ.tail
        (mem_Days_of (next_day-IsDate first last v w lt) w r u (next_day-le first t v u after) high)
  | inr same ↦ Memᴰ.head (sym (before_antisym first t same low))
]

-- A list of days holds exactly the dates of the calendar that are not before its first day and not after its last.
pub mem-Days :
    {first last : Date} {ds : List Date} (t : Date)
    → IsDate first
    → IsDate last
    → Days first last ds
    → Memᴰ t ds ↔ (IsDate t × (before t first ≡ false) × (before last t ≡ false))
mem-Days t v w r = (mem-Days_to v w r, λ (u, low, high). mem_Days_of v w r u low high)
