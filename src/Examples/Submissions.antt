-- ===== src/Examples/Submissions.antt =====
-- Submissions, and the end of a job, at concrete inputs.
use flight_circle_search.Routes.{
  generate_all_pairs, pairs_from, filter_by_routes_with_hubs, keeps_pair, reachable_via_hub, has,
}
use flight_circle_search.Base.{
  ℕ, ◌≡◌, refl, none, List, [], ◌∷◌, codes, ok, err, nat_eq, count, arith, String, Memᴰ, ◌↔◌,
  contains, bytes_beq, keep, lookup, set_of, add,
}
use flight_circle_search.Geo.{
  is_valid_point, resolve_airports, visit_all, visit, haversine_distance_km,
}
use flight_circle_search.Dates.{
  Date, to_before_from, expand_date_range, parse_date, digits, dash, check_date, is_digit, days_in,
  is_leap, matches, in_class, expand_dates, before, day_key, days_from, next_day, format_date,
}
use flight_circle_search.Dates.Range.{Days}
use flight_circle_search.Jobs.{SearchRequest}
use flight_circle_search.Jobs.Validate.{is_none, IsSound, validate_request}
use flight_circle_search.Jobs.Service.{
  GeneratedPair, generate_tuples, submit, date_range, to_routes_airports, all_dated, dated,
}
use flight_circle_search.Jobs.Tuples.{IsWanted, generate_tuples-IsWanted}
use flight_circle_search.Jobs.Submit.Described.{with_search, submit_lem}
use flight_circle_search.Examples.Data.{
  whole, airports, graph, isolated, source, service, request, empty_world, first_day, last_day,
}
use flight_circle_search.Examples.Searches.{first_parses, last_parses, in_order}

request-IsSound : IsSound whole request
unfolding is_valid_point is_none
request-IsSound = record {
  origin_valid = refl;
  dest_valid = refl;
  origin_r_low = refl;
  origin_r_high = refl;
  dest_r_low = refl;
  dest_r_high = refl;
  from_parses = rw first_parses refl;
  to_parses = rw last_parses refl;
}

generate_tuples-IsWanted_example :
    (out : List GeneratedPair) × (days : List Date) × (generate_tuples whole source service.hubs
        request
      ≡ ok out)
    × Days first_day last_day days
    × ((t : GeneratedPair) → Memᴰ t out ↔ IsWanted whole service.hubs request airports graph days t)
generate_tuples-IsWanted_example =
    generate_tuples-IsWanted whole service.hubs request source request-IsSound refl refl
      first_parses last_parses in_order

abbrev pub tuple : String → GeneratedPair
tuple date = record { origin = codes "AAA"; destination = codes "CCC"; date = codes date }

abbrev pub some_tuples : List GeneratedPair
some_tuples = tuple "2024-02-28" ∷ tuple "2024-02-29" ∷ tuple "2024-03-01" ∷ []

pub generated : generate_tuples whole source service.hubs request ≡ ok some_tuples
unfolding generate_tuples validate_request is_none is_valid_point resolve_airports visit_all visit
    haversine_distance_km contains bytes_beq to_routes_airports generate_all_pairs pairs_from
    filter_by_routes_with_hubs keeps_pair reachable_via_hub has keep lookup set_of add
    expand_date_range parse_date digits dash check_date is_digit days_in is_leap matches in_class
    expand_dates before day_key days_from next_day format_date all_dated dated
generated = refl

submit_lem_example :
    submit whole service source 9 request empty_world
    ≡ (record { id = 9; total = 3; error = none }, with_search 9 request some_tuples empty_world)
unfolding count
submit_lem_example =
    submit_lem whole service source 9 request some_tuples empty_world generated (omega arith) refl
      refl refl

-- The days of the range in the wrong order.
abbrev reversed : SearchRequest ℕ
reversed = record request { depart_to = codes "2024-02-27" }

reversed_refused :
    generate_tuples whole source service.hubs reversed ≡ err (date_range to_before_from)
unfolding generate_tuples validate_request is_none is_valid_point resolve_airports visit_all visit
    haversine_distance_km contains bytes_beq to_routes_airports generate_all_pairs pairs_from
    filter_by_routes_with_hubs keeps_pair reachable_via_hub has keep lookup set_of add
    expand_date_range parse_date digits dash check_date is_digit days_in is_leap matches in_class
    expand_dates before day_key days_from next_day format_date all_dated dated
reversed_refused = refl

-- No route is known, so that no pair is made.
pub nothing_generated : generate_tuples whole isolated service.hubs request ≡ ok []
unfolding generate_tuples validate_request is_none is_valid_point resolve_airports visit_all visit
    haversine_distance_km contains bytes_beq to_routes_airports generate_all_pairs pairs_from
    filter_by_routes_with_hubs keeps_pair reachable_via_hub has keep lookup set_of add
    expand_date_range parse_date digits dash check_date is_digit days_in is_leap matches in_class
    expand_dates before day_key days_from next_day format_date all_dated dated
nothing_generated = refl
