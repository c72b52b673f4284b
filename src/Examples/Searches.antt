-- ===== src/Examples/Searches.antt =====
-- Airports, routes, dates and requests at concrete inputs.
use flight_circle_search.Base.{
  lookup, contains, set_of, add, bytes_beq, ℕ, ◌≡◌, refl, ◌↔◌, true, false, some, List, [], ◌∷◌,
  map, Memᴰ, Bytes, codes, bytes_eq, ok, keep,
}
use flight_circle_search.Geo
use flight_circle_search.Geo.{
  resolve_airports, is_valid_point, haversine_distance_km, invalid_coordinates,
}
use flight_circle_search.Geo.Circle.{Answers, resolve_airports-Answers}
use flight_circle_search.Routes.{
  keeps_pair, AirportPair, has, reachable_via_hub, filter_by_routes_with_hubs,
}
use flight_circle_search.Routes.Hubs.{Flyable, mem-filter_by_routes_with_hubs}
use flight_circle_search.Dates.{
  digits, dash, check_date, is_digit, days_in, is_leap, Date, parse_date, format_date, before,
  expand_date_range,
}
use flight_circle_search.Dates.Range.{Days, expand_date_range-Days}
use flight_circle_search.Jobs.Validate.{validate_request, IsSound, validate_request_iff}
use flight_circle_search.Examples.Data.{whole, airports, graph, request, first_day, last_day, stop}

abbrev pub centre : Geo.Point ℕ
centre = record { lat = 10; lng = 10 }

centre_valid : is_valid_point whole centre ≡ true
unfolding is_valid_point
centre_valid = refl

resolve_airports-Answers_example :
    (found : List (Geo.Airport ℕ)) × (resolve_airports whole centre 100 airports ≡ ok found)
    × Answers whole centre 100 airports found
resolve_airports-Answers_example =
    resolve_airports-Answers whole centre 100 airports refl centre_valid

abbrev pair : AirportPair ℕ
pair = record { origin = stop "AAA"; destination = stop "CCC" }

abbrev back : AirportPair ℕ
back = record { origin = stop "CCC"; destination = stop "AAA" }

abbrev hubs : List Bytes
hubs = codes "HHH" ∷ []

mem-filter_by_routes_with_hubs_example :
    Memᴰ pair (filter_by_routes_with_hubs (pair ∷ []) graph hubs)
    ↔ (Memᴰ pair (pair ∷ []) × Flyable graph hubs (codes "AAA") (codes "CCC"))
mem-filter_by_routes_with_hubs_example = mem-filter_by_routes_with_hubs graph (pair ∷ []) hubs pair

kept : Memᴰ pair (filter_by_routes_with_hubs (pair ∷ back ∷ []) graph hubs)
unfolding filter_by_routes_with_hubs keeps_pair reachable_via_hub has keep lookup contains set_of
    add bytes_beq
kept = Memᴰ.head refl

pub first_parses : parse_date (codes "2024-02-28") ≡ some first_day
unfolding parse_date digits dash check_date is_digit days_in is_leap bytes_beq
first_parses = refl

pub last_parses : parse_date (codes "2024-03-01") ≡ some last_day
unfolding parse_date digits dash check_date is_digit days_in is_leap bytes_beq
last_parses = refl

pub in_order : before last_day first_day ≡ false
unfolding before
in_order = refl

expand_date_range-Days_example :
    (ds : List Date) × (expand_date_range (codes "2024-02-28") (codes "2024-03-01")
      ≡ ok (map format_date ds))
    × Days first_day last_day ds
expand_date_range-Days_example =
    expand_date_range-Days (codes "2024-02-28") (codes "2024-03-01") first_parses last_parses
      in_order

validate_request_iff_example : (validate_request whole request ≡ ok tt) ↔ IsSound whole request
validate_request_iff_example = validate_request_iff whole request
