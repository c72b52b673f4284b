-- ===== src/Fares/Duffel.antt =====
-- internal/fareprovider/duffel.go: the search of offers for a pair of airports and a day. The HTTP
-- client, encoding/json, package time, `fmt.Sscanf` of a float and the sort of package sort are
-- parameters; a time counts from the zero time of package time.
use flight_circle_search.Base.{
  ℕ, ◌+◌, ◌%◌, false, ◌||◌, Option, none, some, List, [], ◌∷◌, ◌++◌, Bytes, codes, ◌==◌, Result, ok,
  err, length, take, leb, nat_eq, if◌then◌else◌, signed_lt, Bool,
}
use flight_circle_search.Floats.{Floats}
use flight_circle_search.Fares.{
  FareError, auth, invalid_input, rate_limited, provider_down, other, SearchRequest, Fare,
}
use flight_circle_search.Fares.Travelpayouts.{
  Reply, passed_on, unreachable, replied, validate_request,
}
use flight_circle_search.Fares.Durations.{parse_iso_duration}

pub record Airline : Type 0 where
  pub name : Bytes
  pub iata_code : Bytes

pub record Place : Type 0 where
  pub iata_code : Bytes
  pub name : Bytes

pub record Segment : Type 0 where
  pub operating_carrier : Airline
  pub operating_carrier_flight_number : Bytes
  pub departing_at : Bytes
  pub arriving_at : Bytes
  pub origin : Place
  pub destination : Place
  pub duration : Bytes

pub record Slice : Type 0 where
  pub duration : Bytes
  pub segments : List Segment

pub record Offer : Type 0 where
  pub id : Bytes
  pub total_amount : Bytes
  pub total_currency : Bytes
  pub expires_at : Bytes
  pub owner : Airline
  pub slices : List Slice

-- The code that is called: what the provider replies to an offer request for two codes and a date, the offers of a decoded body, the parsers and the sort.
pub record DuffelCalls (fl : Floats) : Type 0 where
  pub offer_requests : Bytes → Bytes → Bytes → Reply
  pub unmarshal : Bytes → Option (List Offer)
  pub parse_time : Bytes → Option ℕ
  pub scan_float : Bytes → Option fl.Float
  pub sort_slice : (Fare → Fare → Bool) → List Fare → List Fare

-- The order of the mapped offers.
unfoldable pub costs_less : Fare → Fare → Bool
costs_less f g = signed_lt f.price g.price

abbrev pub first_nonempty : Bytes → Bytes → Bytes
first_nonempty [] b = b
first_nonempty (c ∷ a) b = c ∷ a

-- `segments[len(segments)-1]`, of the first segment and those behind it.
unfoldable pub last : Segment → List Segment → Segment
last s [] = s
last s (t ∷ rest) = last t rest

-- The loop that adds the durations of the segments, in words.
unfoldable pub add_durations : ℕ → List Segment → ℕ
unfolding parse_iso_duration
add_durations sum [] = sum
add_durations sum (s ∷ rest) =
    add_durations ((sum + parse_iso_duration s.duration) % 18446744073709551616) rest

abbrev pub total_duration : Slice → ℕ
total_duration slice =
    let whole = parse_iso_duration slice.duration in
    if whole == 0 then add_durations 0 slice.segments else whole

abbrev pub display_flight : Bytes → Bytes → Bytes
display_flight airline [] = []
display_flight [] (d ∷ number) = d ∷ number
display_flight (c ∷ airline) (d ∷ number) = (c ∷ airline) ++ codes " " ++ d ∷ number

module _ {fl : Floats} (calls : DuffelCalls fl) where
  open fl use {Float, mul, of_ℕ, round}
  open calls use {offer_requests, unmarshal, parse_time, scan_float, sort_slice}

  abbrev time_or_zero : Option ℕ → ℕ
  time_or_zero none = 0
  time_or_zero (some t) = t

  abbrev time_or_utc : Bytes → Option ℕ → ℕ
  time_or_utc s none = time_or_zero (parse_time (s ++ codes "Z"))
  time_or_utc s (some t) = t

  -- The zero time stands for a text that does not parse.
  unfoldable pub parse_flexible_time : Bytes → ℕ
  parse_flexible_time [] = 0
  parse_flexible_time (c ∷ s) = time_or_utc (c ∷ s) (parse_time (c ∷ s))

  unfoldable pub parse_price_cents : Bytes → ℕ
  parse_price_cents amount = elim (scan_float amount) [
    | none ↦ 0
    | some f ↦ round (mul f (of_ℕ 100))
  ]

  unfoldable pub offer_fare : SearchRequest → Offer → Slice → Segment → List Segment → ℕ → Fare
  offer_fare req o slice first rest departure =
      let airline = first_nonempty first.operating_carrier.iata_code o.owner.iata_code in
      let airline_name = first_nonempty first.operating_carrier.name o.owner.name in
      record {
        origin = req.origin;
        destination = req.destination;
        origin_airport = first.origin.iata_code;
        destination_airport = (last first rest).destination.iata_code;
        airline = first_nonempty airline airline_name;
        flight_number = display_flight airline first.operating_carrier_flight_number;
        departure_at = departure;
        price = parse_price_cents o.total_amount;
        currency = o.total_currency;
        duration = total_duration slice;
        transfers = length rest;
        link = codes "https://app.duffel.com/book/offers/" ++ o.id;
        cached = false;
      }

  abbrev pub of_segments : SearchRequest → Offer → Slice → List Segment → Option Fare
  of_segments req o slice [] = none
  of_segments req o slice (first ∷ rest) =
      let departure = parse_flexible_time first.departing_at in
      if departure == 0 then none else some (offer_fare req o slice first rest departure)

  abbrev pub of_slices : SearchRequest → Offer → List Slice → Option Fare
  of_slices req o [] = none
  of_slices req o (slice ∷ slices) = of_segments req o slice slice.segments

  -- The body of the loop of `mapDuffelOffers`; none for `continue`.
  unfoldable pub map_offer : SearchRequest → Offer → Option Fare
  map_offer req o = of_slices req o o.slices

  abbrev pub appended : Option Fare → List Fare → List Fare
  appended none fares = fares
  appended (some f) fares = f ∷ fares

  unfoldable pub collect : SearchRequest → List Offer → List Fare
  collect req [] = []
  collect req (o ∷ offers) = appended (map_offer req o) (collect req offers)

  unfoldable pub map_duffel_offers : SearchRequest → List Offer → List Fare
  map_duffel_offers req offers = sort_slice costs_less (collect req offers)

  abbrev pub of_offers : SearchRequest → List Offer → List Fare
  of_offers req [] = []
  of_offers req (o ∷ offers) = map_duffel_offers req (o ∷ offers)

  -- `io.LimitReader(resp.Body, 1<<24)`
  abbrev pub of_bytes : Bytes → Result FareError (List Offer)
  of_bytes bytes = elim (unmarshal (take 16777216 bytes)) [
    | none ↦ err provider_down
    | some offers ↦ ok offers
  ]

  abbrev pub of_read : Option Bytes → Result FareError (List Offer)
  of_read none = err provider_down
  of_read (some bytes) = of_bytes bytes

  abbrev pub of_reply : Reply → Result FareError (List Offer)
  of_reply (passed_on text) = err (other text)
  of_reply unreachable = err provider_down
  of_reply (replied status body) =
      if status == 401 || status == 403
      then err auth
      else if status == 429
      then err rate_limited
      else if status == 400
      then err invalid_input
      else if leb 500 status
      then err provider_down
      else of_read body

  unfoldable pub create_offer_request : SearchRequest → Result FareError (List Offer)
  create_offer_request req = of_reply (offer_requests req.origin req.destination req.date)

  abbrev pub answered : SearchRequest → Result FareError (List Offer) → Result FareError (List Fare)
  answered req (err e) = err e
  answered req (ok offers) = ok (of_offers req offers)

  -- `Duffel.Search`
  unfoldable pub duffel_search : SearchRequest → Result FareError (List Fare)
  duffel_search req = elim (validate_request req) [
    | some e ↦ err e
    | none ↦ answered req (create_offer_request req)
  ]
