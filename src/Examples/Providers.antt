-- ===== src/Examples/Providers.antt =====
-- The cache and the fare provider at concrete inputs.
use flight_circle_search.Fares.Durations.{atoi_safe, atoi_from, parse_iso_duration, scan}
use flight_circle_search.Fares.Served.{key_of}
use flight_circle_search.Fares.Fallback.{for_day, for_month, fetch_with_fallback_cheapest}
use flight_circle_search.Dates.{
  matches, in_class, is_digit, parse_date, digits, dash, check_date, days_in, is_leap,
}
use flight_circle_search.Fares.Stored.{
  Travelpayouts, new_travelpayouts, set_cache, search_stored, search_stored_again,
}
use flight_circle_search.Cache.Remote.{memory_cache}
use flight_circle_search.Cache.Contract.{memory-IsKeeping}
use flight_circle_search.Base.{
  lookup, ℕ, ◌≡◌, refl, true, false, Option, some, none, [], ◌∷◌, Bytes, codes, bytes_eq, ◌==◌, ok,
  if◌then◌else◌, bytes_beq, signed_lt, All, Memᴰ, map, arith,
}
use flight_circle_search.Fares.{Fare, SearchRequest}
use flight_circle_search.Cache.{InMemoryCache, new_in_memory_cache, get, set, fare_key}
use flight_circle_search.Fares.Travelpayouts.{
  Calls, Flight, Response, Reply, replied, search, fetch_with_fallback, search_at_date, map_fares,
  map_fare, to_fare, validate_request,
}
use flight_circle_search.Examples.Sorting.{sort_fares, sort_fares-SortsSlices, insert_fare}
use flight_circle_search.Examples.Data.{whole}

abbrev flight : Flight ℕ
flight = record {
  origin_airport = codes "AAA";
  destination_airport = codes "CCC";
  origin = codes "AAA";
  destination = codes "CCC";
  airline = codes "XX";
  flight_number = codes "1";
  departure_at = codes "t";
  price = 12;
  duration = 90;
  transfers = 0;
  link = codes "l";
}

-- The fare of that flight, at the time 5.
abbrev fare : Fare
fare = record {
  origin = codes "AAA";
  destination = codes "CCC";
  origin_airport = codes "AAA";
  destination_airport = codes "CCC";
  airline = codes "XX";
  flight_number = codes "1";
  departure_at = 5;
  price = 1200;
  currency = codes "USD";
  duration = 5400000000000;
  transfers = 0;
  link = codes "l";
  cached = false;
}

abbrev request : SearchRequest
request = record { origin = codes "AAA"; destination = codes "CCC"; date = codes "2024-02-28" }

-- A provider with no flight on a day, and one flight, or the cheapest of none, in a month.
abbrev replies : Bytes → Bytes → Bytes → Reply
replies origin destination date = replied 200 (some date)

abbrev body : Bytes → Option (Response ℕ)
body date = some (record {
  success = true;
  flights = some (some (if date == codes "2024-02" then flight ∷ [] else []));
  currency = codes "usd";
})

abbrev calls : Calls whole
calls = record {
  prices_for_dates = replies;
  probe = λ b. some true;
  unmarshal = body;
  parse_time = λ b. some 5;
  to_lower = λ b. b;
  marshal_fares = λ fares. some (codes "f");
  unmarshal_fares = λ b. ok (fare ∷ []);
  sort_slice = sort_fares;
}

day_has_none : for_day calls request ≡ ok []
unfolding search_at_date map_fares bytes_beq
day_has_none = refl

month_has_one : for_month calls request ≡ ok (fare ∷ [])
unfolding search_at_date map_fares map_fare to_fare bytes_beq
month_has_one = refl

fetch_with_fallback_cheapest_example :
    (g : Fare) × (fetch_with_fallback calls request ≡ ok (g ∷ []))
    × Memᴰ g (fare ∷ [])
    × All (λ (x : Fare). signed_lt x.price g.price ≡ false) (fare ∷ [])
fetch_with_fallback_cheapest_example =
    fetch_with_fallback_cheapest calls request fare [] sort_fares-SortsSlices day_has_none
      month_has_one

searched_once :
    search calls (some (λ key. none)) request
    ≡ (ok (fare ∷ []), (key_of calls request, codes "f") ∷ [])
unfolding search validate_request matches in_class is_digit parse_date digits dash check_date
    days_in is_leap fetch_with_fallback search_at_date map_fares map_fare to_fare sort_fares
    insert_fare bytes_beq fare_key
searched_once = refl

abbrev provider : Travelpayouts
provider = set_cache 86400000000000 new_travelpayouts

abbrev clean : InMemoryCache
clean = new_in_memory_cache 100

abbrev filled : InMemoryCache
filled = set (key_of calls request) (codes "f") 86400000000000 clean

missed : get (key_of calls request) clean ≡ none
unfolding get lookup
missed = refl

search_stored_again_example :
    (search_stored calls memory_cache provider request clean ≡ (ok (fare ∷ []), filled))
    × ((search_stored calls memory_cache provider request filled).0
        ≡ ok (map (λ (f : Fare). record f { cached = true }) (fare ∷ [])))
search_stored_again_example =
    search_stored_again calls memory_cache memory-IsKeeping provider request 86400 3 clean clean
      filled filled (ok none) (get (key_of calls request) filled) (fare ∷ []) (codes "f") refl refl
      (omega arith) (omega arith) (omega arith) (rw missed refl) searched_once refl refl refl

-- A part that is no number is skipped.
skipped : parse_iso_duration (codes "PTxH5M") ≡ 300000000000
unfolding parse_iso_duration scan atoi_safe atoi_from is_digit
skipped = refl
