-- ===== src/Jobs/Validate.antt =====
-- `validateRequest` of internal/jobengine/types.go.
use flight_circle_search.Base.{
  ◌≡◌, inl, inr, ◌↔◌, Bool, true, false, not, ◌||◌, Bytes, Option, none, some, Option-cases, Result,
  ok, err, arith, if◌then◌else◌,
}
use flight_circle_search.Floats.{Floats}
use flight_circle_search.Geo.{is_valid_point}
use flight_circle_search.Dates.{matches, date_regex, parse_date}
use flight_circle_search.Dates.Text.{parse_date-matches}
use flight_circle_search.Jobs.{SearchRequest}

-- The field that an `ErrInvalidInput` names.
pub data Field : Type 0 where
  origin_lat origin_lng dest_lat dest_lng origin_r dest_r depart_from depart_to : Field

unfoldable pub is_none : {A : Type 0} → Option A → Bool
is_none none = true
is_none (some a) = false

parses-matches : (s : Bytes) → is_none (parse_date s) ≡ false → matches date_regex s ≡ true
unfolding is_none
parses-matches s h = elim (Option-cases (parse_date s)) [
  | inl n ↦ ground arith
  | inr (d, e) ↦ parse_date-matches s e
]

module _ (fl : Floats) where
  open fl use {Float, lt, le, neg, of_ℕ}

  unfoldable pub validate_request : SearchRequest Float → Result Field (Unit {0})
  unfolding is_none
  validate_request req =
      if lt req.origin_lat (neg (of_ℕ 90)) || lt (of_ℕ 90) req.origin_lat
      then err origin_lat
      else if lt req.origin_lng (neg (of_ℕ 180)) || lt (of_ℕ 180) req.origin_lng
      then err origin_lng
      else if lt req.dest_lat (neg (of_ℕ 90)) || lt (of_ℕ 90) req.dest_lat
      then err dest_lat
      else if lt req.dest_lng (neg (of_ℕ 180)) || lt (of_ℕ 180) req.dest_lng
      then err dest_lng
      else if le req.origin_r (of_ℕ 0) || lt (of_ℕ 20000) req.origin_r
      then err origin_r
      else if le req.dest_r (of_ℕ 0) || lt (of_ℕ 20000) req.dest_r
      then err dest_r
      else if not (matches date_regex req.depart_from)
      then err depart_from
      else if not (matches date_regex req.depart_to)
      then err depart_to
      else if is_none (parse_date req.depart_from)
      then err depart_from
      else if is_none (parse_date req.depart_to)
      then err depart_to
      else ok tt

  -- What the two searches for airports and the date range want of a request.
  pub record IsSound (req : SearchRequest Float) : Type 0 where
    pub origin_valid :
        is_valid_point fl (record { lat = req.origin_lat; lng = req.origin_lng }) ≡ true
    pub dest_valid : is_valid_point fl (record { lat = req.dest_lat; lng = req.dest_lng }) ≡ true
    pub origin_r_low : le req.origin_r (of_ℕ 0) ≡ false
    pub origin_r_high : lt (of_ℕ 20000) req.origin_r ≡ false
    pub dest_r_low : le req.dest_r (of_ℕ 0) ≡ false
    pub dest_r_high : lt (of_ℕ 20000) req.dest_r ≡ false
    pub from_parses : is_none (parse_date req.depart_from) ≡ false
    pub to_parses : is_none (parse_date req.depart_to) ≡ false

  -- A request is accepted exactly if both centres are valid points of the map, both radii are positive and at most 20000, and both dates parse; the pattern test on the dates refuses nothing more.
  pub validate_request_iff :
      (req : SearchRequest Float) → (validate_request req ≡ ok tt) ↔ IsSound req
  unfolding validate_request is_valid_point
  validate_request_iff req =
      ground (arith, parses-matches req.depart_from, parses-matches req.depart_to)
