-- ===== src/Jobs/Tuples.antt =====
-- Which tuples `GenerateTuples` makes.
use mathlib.Core.Path.{ap₂, subst₂}
use flight_circle_search.Base.{
  ◌≡◌, refl, sym, ap, ◌∙◌, subst, ◌≢◌, ◌↔◌, inl, inr, false, some, List, [], ◌∷◌, map, Memᴰ, Bytes,
  ok, arith, keep, mem-append_cases, mem_append_left, mem_append_right,
}
use flight_circle_search.Floats.{Floats}
use flight_circle_search.Geo
use flight_circle_search.Geo.{resolve_airports}
use flight_circle_search.Geo.Resolved.{first_of_each, in_circle, resolve_airports-eq-first_of_each}
use flight_circle_search.Routes
use flight_circle_search.Routes.{
  RouteGraph, AirportPair, generate_all_pairs, filter_by_routes_with_hubs,
}
use flight_circle_search.Routes.Pairs.{mem-generate_all_pairs}
use flight_circle_search.Routes.Hubs.{Flyable, mem-filter_by_routes_with_hubs}
use flight_circle_search.Dates.{Date, before, format_date, parse_date}
use flight_circle_search.Dates.Range.{Days, expand_date_range-Days}
use flight_circle_search.Jobs.{SearchRequest}
use flight_circle_search.Jobs.Validate.{IsSound, validate_request_iff}
use flight_circle_search.Jobs.Service.{
  AirportSource, GeneratedPair, to_routes_airports, dated, all_dated, generate_tuples,
}

module _ {F : Type 0} where
  abbrev routed : Geo.Airport F → Routes.Airport F
  routed a = record { iata = a.iata; name = a.name; location = a.location }

  mem-to_routes_airports :
      {b : Routes.Airport F} (xs : List (Geo.Airport F))
      → Memᴰ b (to_routes_airports xs)
      → (a : Geo.Airport F) × Memᴰ a xs × (b ≡ routed a)
  unfolding to_routes_airports
  mem-to_routes_airports [] m = elim m [ ]
  mem-to_routes_airports (a ∷ xs) (Memᴰ.head e) = (a, Memᴰ.head refl, e)
  mem-to_routes_airports (a ∷ xs) (Memᴰ.tail m) =
      let (c, here, e) = mem-to_routes_airports xs m in (c, Memᴰ.tail here, e)

  mem_to_routes_airports_of :
      {a : Geo.Airport F} (xs : List (Geo.Airport F))
      → Memᴰ a xs
      → Memᴰ (routed a) (to_routes_airports xs)
  unfolding to_routes_airports
  mem_to_routes_airports_of [] m = elim m [ ]
  mem_to_routes_airports_of (b ∷ xs) (Memᴰ.head e) = Memᴰ.head (ap routed e)
  mem_to_routes_airports_of (b ∷ xs) (Memᴰ.tail m) = Memᴰ.tail (mem_to_routes_airports_of xs m)

  abbrev tuple_of : AirportPair F → Bytes → GeneratedPair
  tuple_of p d = record { origin = p.origin.iata; destination = p.destination.iata; date = d }

  mem-dated :
      {t : GeneratedPair} (p : AirportPair F) (dates : List Bytes)
      → Memᴰ t (dated p dates)
      → (d : Bytes) × Memᴰ d dates × (t ≡ tuple_of p d)
  unfolding dated
  mem-dated p [] m = elim m [ ]
  mem-dated p (d ∷ dates) (Memᴰ.head e) = (d, Memᴰ.head refl, e)
  mem-dated p (d ∷ dates) (Memᴰ.tail m) =
      let (c, here, e) = mem-dated p dates m in (c, Memᴰ.tail here, e)

  mem_dated_of :
      {d : Bytes} (p : AirportPair F) (dates : List Bytes)
      → Memᴰ d dates
      → Memᴰ (tuple_of p d) (dated p dates)
  unfolding dated
  mem_dated_of p [] m = elim m [ ]
  mem_dated_of p (c ∷ dates) (Memᴰ.head e) = Memᴰ.head (ap (tuple_of p) e)
  mem_dated_of p (c ∷ dates) (Memᴰ.tail m) = Memᴰ.tail (mem_dated_of p dates m)

  mem-all_dated :
      {t : GeneratedPair} (pairs : List (AirportPair F)) (dates : List Bytes)
      → Memᴰ t (all_dated pairs dates)
      → (p : AirportPair F) × (d : Bytes) × Memᴰ p pairs × Memᴰ d dates × (t ≡ tuple_of p d)
  unfolding all_dated
  mem-all_dated [] dates m = elim m [ ]
  mem-all_dated (p ∷ pairs) dates m =
      elim (mem-append_cases (dated p dates) (all_dated pairs dates) m) [
        | inl here ↦ let (d, dm, e) = mem-dated p dates here in (p, d, Memᴰ.head refl, dm, e)
        | inr later ↦
            let (q, d, qm, dm, e) = mem-all_dated pairs dates later in (q, d, Memᴰ.tail qm, dm, e)
      ]

  mem_all_dated_of :
      {p : AirportPair F} {d : Bytes} (pairs : List (AirportPair F)) (dates : List Bytes)
      → Memᴰ p pairs
      → Memᴰ d dates
      → Memᴰ (tuple_of p d) (all_dated pairs dates)
  unfolding all_dated
  mem_all_dated_of [] dates m dm = elim m [ ]
  mem_all_dated_of {p} {d} (q ∷ pairs) dates (Memᴰ.head e) dm =
      mem_append_left (dated q dates) (all_dated pairs dates) (
        subst (λ (x : AirportPair F). Memᴰ (tuple_of p d) (dated x dates)) e
          (mem_dated_of p dates dm))
  mem_all_dated_of (q ∷ pairs) dates (Memᴰ.tail m) dm =
      mem_append_right (dated q dates) (all_dated pairs dates) (mem_all_dated_of pairs dates m dm)

module _ (fl : Floats) (hubs : List Bytes) (req : SearchRequest fl.Float) where
  -- The airports of one circle that a search uses.
  abbrev pub origins_of : List (Geo.Airport fl.Float) → List (Geo.Airport fl.Float)
  origins_of airports = first_of_each (
      keep (in_circle fl (record { lat = req.origin_lat; lng = req.origin_lng }) req.origin_r)
        airports)

  abbrev pub destinations_of : List (Geo.Airport fl.Float) → List (Geo.Airport fl.Float)
  destinations_of airports =
      first_of_each (
        keep (in_circle fl (record { lat = req.dest_lat; lng = req.dest_lng }) req.dest_r) airports)

  -- The tuple joins an airport of each circle, with different codes and a way to fly, at a day of the list.
  pub record IsWanted (airports : List (Geo.Airport fl.Float)) (graph : RouteGraph)
      (days : List Date) (t : GeneratedPair) : Type 0 where
    pub from : Geo.Airport fl.Float
    pub to : Geo.Airport fl.Float
    pub day : Bytes
    pub from_inside : Memᴰ from (origins_of airports)
    pub to_inside : Memᴰ to (destinations_of airports)
    pub apart : from.iata ≢ to.iata
    pub flyable : Flyable graph hubs from.iata to.iata
    pub in_range : Memᴰ day (map format_date days)
    pub is_tuple : t ≡ record { origin = from.iata; destination = to.iata; date = day }

  abbrev pairs_of : List (Geo.Airport fl.Float) → RouteGraph → List (AirportPair fl.Float)
  pairs_of airports graph =
      filter_by_routes_with_hubs
        (generate_all_pairs (to_routes_airports (origins_of airports))
          (to_routes_airports (destinations_of airports)))
        graph hubs

  IsWanted-to :
      (airports : List (Geo.Airport fl.Float)) (graph : RouteGraph) (days : List Date)
      (t : GeneratedPair)
      → Memᴰ t (all_dated (pairs_of airports graph) (map format_date days))
      → IsWanted airports graph days t
  IsWanted-to airports graph days t m =
      let (p, d, pm, dm, e) = mem-all_dated (pairs_of airports graph) (map format_date days) m in
      let (made, fly) = (mem-filter_by_routes_with_hubs graph _ hubs p).0 pm in
      let (om, tm, ne) = (mem-generate_all_pairs _ _ p).0 made in
      let (o, o_in, o_eq) = mem-to_routes_airports (origins_of airports) om in
      let (q, q_in, q_eq) = mem-to_routes_airports (destinations_of airports) tm in
      let o_iata = ap (λ (a : Routes.Airport fl.Float). a.iata) o_eq in
      let q_iata = ap (λ (a : Routes.Airport fl.Float). a.iata) q_eq in
      record {
        from = o;
        to = q;
        day = d;
        from_inside = o_in;
        to_inside = q_in;
        apart = λ same. ne (o_iata ∙ same ∙ sym q_iata);
        flyable = subst₂ (Flyable graph hubs) o_iata q_iata fly;
        in_range = dm;
        is_tuple = e ∙ ap₂ (λ a b. record { origin = a; destination = b; date = d }) o_iata q_iata;
      }

  wanted_from :
      (airports : List (Geo.Airport fl.Float)) (graph : RouteGraph) (days : List Date)
      (t : GeneratedPair)
      → IsWanted airports graph days t
      → Memᴰ t (all_dated (pairs_of airports graph) (map format_date days))
  wanted_from airports graph days t w =
      let p : AirportPair fl.Float = record { origin = routed w.from; destination = routed w.to } in
      subst (λ x. Memᴰ x (all_dated (pairs_of airports graph) (map format_date days)))
        (sym w.is_tuple)
        (mem_all_dated_of {p = p} (pairs_of airports graph) (map format_date days)
          ((mem-filter_by_routes_with_hubs graph _ hubs p).1 (
            (mem-generate_all_pairs _ _ p).1 (
              mem_to_routes_airports_of (origins_of airports) w.from_inside,
              mem_to_routes_airports_of (destinations_of airports) w.to_inside,
              w.apart,
            ),
            w.flyable,
          ))
          w.in_range)

  -- For an accepted request whose last day is not before its first, and data that loads, the generation succeeds, and it makes exactly the tuples of an airport in each circle, with different codes and a direct route or a connection through one hub, at each day from the first to the last.
  pub generate_tuples-IsWanted :
      (source : AirportSource fl.Float) {airports : List (Geo.Airport fl.Float)}
      {graph : RouteGraph} {first last : Date}
      → IsSound fl req
      → source.airports ≡ ok airports
      → source.route_graph ≡ ok graph
      → parse_date req.depart_from ≡ some first
      → parse_date req.depart_to ≡ some last
      → before last first ≡ false
      → (out : List GeneratedPair) × (days : List Date) × (generate_tuples fl source hubs req
          ≡ ok out)
        × Days first last days
        × ((t : GeneratedPair) → Memᴰ t out ↔ IsWanted airports graph days t)
  unfolding generate_tuples
  generate_tuples-IsWanted source {airports} {graph} v a g p q h =
      let (days, e, r) = expand_date_range-Days req.depart_from req.depart_to p q h in
      (
        all_dated (pairs_of airports graph) (map format_date days),
        days,
        ground (
          arith,
          (validate_request_iff fl req).1 v,
          resolve_airports-eq-first_of_each fl
              (record { lat = req.origin_lat; lng = req.origin_lng }) req.origin_r airports
              v.origin_r_low v.origin_valid,
          resolve_airports-eq-first_of_each fl (record { lat = req.dest_lat; lng = req.dest_lng })
              req.dest_r airports v.dest_r_low v.dest_valid,
        ),
        r,
        λ t. (IsWanted-to airports graph days t, wanted_from airports graph days t),
      )
