-- ===== src/Fares/Travelpayouts.antt =====
-- internal/fareprovider/travelpayouts.go: the search of fares for a pair of airports and a day. The
-- HTTP client, the cache, encoding/json, package time and the sort of package sort are parameters.
use flight_circle_search.Base.{
  ℕ, Bool, true, false, ◌||◌, Option, none, some, List, [], ◌∷◌, map, Bytes, codes, bytes_eq, ◌==◌,
  Result, ok, err, ◌>>=◌, length, take, leb, nat_eq, if◌then◌else◌, word_mul, signed_lt,
}
use flight_circle_search.Floats.{Floats}
use flight_circle_search.Dates.{matches, date_regex, iata_regex, parse_date}
use flight_circle_search.Fares.{
  FareError, auth, invalid_input, rate_limited, provider_down, other, SearchRequest, Fare,
}
use flight_circle_search.Cache.{fare_key}

-- `tpFlight`, the fields that are read.
pub record Flight (F : Type 0) : Type 0 where
  pub origin_airport : Bytes
  pub destination_airport : Bytes
  pub origin : Bytes
  pub destination : Bytes
  pub airline : Bytes
  pub flight_number : Bytes
  pub departure_at : Bytes
  pub price : F
  pub duration : ℕ
  pub transfers : ℕ
  pub link : Bytes

-- `tpResponse`; the data is a pointer to a slice, and either may be nil.
pub record Response (F : Type 0) : Type 0 where
  pub success : Bool
  pub flights : Option (Option (List (Flight F)))
  pub currency : Bytes

-- What `httpClient.Do` and the read of the body return: an error that is passed on as it is (of the base URL, or of a context that is over), any other failure, or a status and the body, if it can be read.
pub data Reply : Type 0 where
  passed_on : Bytes → Reply
  unreachable : Reply
  replied : ℕ → Option Bytes → Reply

-- The code that is called: what the provider replies for two codes and a date or a month, the JSON of a body (whether it is an object with the key `data`, and what it decodes to), the parsers and the sort.
pub record Calls (fl : Floats) : Type 0 where
  pub prices_for_dates : Bytes → Bytes → Bytes → Reply
  pub probe : Bytes → Option Bool
  pub unmarshal : Bytes → Option (Response fl.Float)
  pub parse_time : Bytes → Option ℕ
  pub to_lower : Bytes → Bytes
  pub marshal_fares : List Fare → Option Bytes
  pub unmarshal_fares : Bytes → Result Bytes (List Fare)
  pub sort_slice : (Fare → Fare → Bool) → List Fare → List Fare

-- `validateRequest`; each of its errors wraps `ErrInvalidInput`.
unfoldable pub validate_request : SearchRequest → Option FareError
validate_request req =
    if matches iata_regex req.origin
    then (if matches iata_regex req.destination
        then (if matches date_regex req.date
            then elim (parse_date req.date) [ none ↦ some invalid_input | some d ↦ none ]
            else some invalid_input)
        else some invalid_input)
    else some invalid_input

-- The order of the month's fares.
unfoldable pub is_cheaper : Fare → Fare → Bool
is_cheaper f g = signed_lt f.price g.price

abbrev pub hit : Fare → Fare
hit f = record f { cached = true }

module _ {fl : Floats} (calls : Calls fl) where
  open fl use {Float, mul, of_ℕ, round}
  open calls use {
    prices_for_dates, probe, unmarshal, parse_time, to_lower, marshal_fares, unmarshal_fares,
    sort_slice,
  }

  unfoldable pub to_fare : Flight Float → ℕ → Fare
  to_fare f departure = record {
    origin = f.origin;
    destination = f.destination;
    origin_airport = f.origin_airport;
    destination_airport = f.destination_airport;
    airline = f.airline;
    flight_number = f.flight_number;
    departure_at = departure;
    price = round (mul f.price (of_ℕ 100));
    currency = codes "USD";
    duration = word_mul f.duration 60000000000;
    transfers = f.transfers;
    link = f.link;
    cached = false;
  }

  -- The body of the loop of `mapFares`.
  unfoldable pub map_fare : Flight Float → Result FareError Fare
  map_fare f =
      if length f.origin_airport == 0
        || length f.destination_airport == 0
        || length f.departure_at == 0
        || length f.link == 0
      then err provider_down
      else elim (parse_time f.departure_at) [ none ↦ err provider_down | some t ↦ ok (to_fare f t) ]

  unfoldable pub map_fares : List (Flight Float) → Result FareError (List Fare)
  map_fares [] = ok []
  map_fares (f ∷ flights) = do fare ← map_fare f; fares ← map_fares flights; ok (fare ∷ fares)

  abbrev pub of_flights : Option (List (Flight Float)) → Result FareError (List Fare)
  of_flights none = ok []
  of_flights (some flights) = map_fares flights

  abbrev pub of_response : Response Float → Result FareError (List Fare)
  of_response r =
      if r.success
      then elim r.flights [
        | none ↦ ok []
        | some flights ↦
            if to_lower r.currency == codes "usd" then of_flights flights else err provider_down
      ]
      else err provider_down

  abbrev pub of_body : Bytes → Result FareError (List Fare)
  of_body body = elim (probe body) [
    | none ↦ err provider_down
    | some has_data ↦
        if has_data
        then elim (unmarshal body) [ none ↦ err provider_down | some r ↦ of_response r ]
        else err provider_down
  ]

  abbrev pub of_reply : Reply → Result FareError (List Fare)
  of_reply (passed_on text) = err (other text)
  of_reply unreachable = err provider_down
  of_reply (replied status body) =
      if status == 401 || status == 403
      then err auth
      else if status == 429
      then err rate_limited
      else if status == 400
      then err invalid_input
      else if leb 500 status
      then err provider_down
      else elim body [ none ↦ err provider_down | some bytes ↦ of_body bytes ]

  unfoldable pub search_at_date : Bytes → Bytes → Bytes → Result FareError (List Fare)
  search_at_date origin destination departure_at =
      of_reply (prices_for_dates origin destination departure_at)

  -- What `fetchWithFallback` makes of the answer for the month.
  abbrev pub of_month : Result FareError (List Fare) → Result FareError (List Fare)
  of_month (err provider_down) = ok []
  of_month (err e) = err e
  of_month (ok []) = ok []
  of_month (ok (f ∷ fares)) = ok (take 1 (sort_slice is_cheaper (f ∷ fares)))

  abbrev pub of_day : SearchRequest → Result FareError (List Fare) → Result FareError (List Fare)
  of_day req (err e) = err e
  of_day req (ok (f ∷ fares)) = ok (f ∷ fares)
  of_day req (ok []) = of_month (search_at_date req.origin req.destination (take 7 req.date))

  unfoldable pub fetch_with_fallback : SearchRequest → Result FareError (List Fare)
  fetch_with_fallback req = of_day req (search_at_date req.origin req.destination req.date)

  -- A read of the cache that is there, if it is there; every error of the read is a miss.
  abbrev pub of_cached : Bytes → Result FareError (List Fare)
  of_cached bytes = elim (unmarshal_fares bytes) [
    | ok fares ↦ ok (map hit fares)
    | err text ↦ err (other text)
  ]

  abbrev pub fetched :
      Bool
      → Bytes
      → Result FareError (List Fare)
      → Result FareError (List Fare) × List (Bytes × Bytes)
  fetched has_cache key (err e) = (err e, [])
  fetched has_cache key (ok fares) =
      if has_cache
      then elim (marshal_fares fares) [
        | none ↦ (ok fares, [])
        | some bytes ↦ (ok fares, (key, bytes) ∷ [])
      ]
      else (ok fares, [])

  -- `Search`: what it returns, and what it writes to the cache.
  unfoldable pub search :
      Option (Bytes → Option Bytes)
      → SearchRequest
      → Result FareError (List Fare) × List (Bytes × Bytes)
  search cache req =
      let key = fare_key req.origin req.destination req.date in
      elim (validate_request req) [
        | some e ↦ (err e, [])
        | none ↦ elim cache [
          | none ↦ fetched false key (fetch_with_fallback req)
          | some read ↦ elim (read key) [
            | some bytes ↦ (of_cached bytes, [])
            | none ↦ fetched true key (fetch_with_fallback req)
          ]
        ]
      ]
