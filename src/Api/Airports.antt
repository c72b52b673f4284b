-- ===== src/Api/Airports.antt =====
-- internal/api/airports.go: the airports and the routes that are built into the program. The reader
-- of CSV gives the rows of the one file; the scanner gives the lines of the other, without their
-- ends, and its error; `fmt.Sscanf` of a float is a parameter.
use flight_circle_search.Base.{
  ℕ, ◌||◌, Option, none, some, List, [], ◌∷◌, Bytes, bytes_eq, nat_eq, ◌==◌, length, lookup, insert,
  add, trim_space, reverse, if◌then◌else◌, Result, ok, err,
}
use flight_circle_search.Geo.{Airport}
use flight_circle_search.Routes.{RouteGraph}

module _ {F : Type 0} (scan_float : Bytes → Option F) where
  abbrev located : Bytes → Bytes → Option F → Option F → Option (Airport F)
  located iata name none lng = none
  located iata name (some lat) none = none
  located iata name (some lat) (some lng) =
      some (record { iata = iata; name = name; location = record { lat = lat; lng = lng } })

  -- The body of the loop over the rows; none for `continue`.
  unfoldable pub airport_of : List Bytes → Option (Airport F)
  airport_of (iata ∷ name ∷ lat ∷ lng ∷ more) = located iata name (scan_float lat) (scan_float lng)
  airport_of _ = none

  abbrev and_more : Option (Airport F) → List (Airport F) → List (Airport F)
  and_more none out = out
  and_more (some a) out = a ∷ out

  unfoldable pub airports_of : List (List Bytes) → List (Airport F)
  airports_of [] = []
  airports_of (row ∷ rows) = and_more (airport_of row) (airports_of rows)

  -- `Airports`: the first row is the header.
  unfoldable pub airports : Result Bytes (List (List Bytes)) → Result Bytes (List (Airport F))
  airports (err e) = err e
  airports (ok []) = ok []
  airports (ok (header ∷ rows)) = ok (airports_of rows)

abbrev pub without_first_cr : Bytes → Bytes
without_first_cr [] = []
without_first_cr (b ∷ bs) = if b == 13 then bs else b ∷ bs

-- `strings.TrimSuffix(line, "\r")`
unfoldable pub trim_cr : Bytes → Bytes
trim_cr line = reverse (without_first_cr (reverse line))

abbrev pub behind : ℕ → Option (Bytes × Bytes) → Option (Bytes × Bytes)
behind b none = none
behind b (some (s, t)) = some (b ∷ s, t)

-- `strings.SplitN(line, ",", 2)`; none for a line without a comma.
unfoldable pub split_two : Bytes → Option (Bytes × Bytes)
split_two [] = none
split_two (b ∷ bs) = let rest = split_two bs in if b == 44 then some ([], bs) else behind b rest

abbrev pub both : Bytes → Bytes → Option (Bytes × Bytes)
both from to = if length from == 0 || length to == 0 then none else some (from, to)

abbrev pub trimmed : Option (Bytes × Bytes) → Option (Bytes × Bytes)
trimmed none = none
trimmed (some (s, t)) = both (trim_space s) (trim_space t)

-- The codes of a line; none for `continue`.
unfoldable pub route_of : Bytes → Option (Bytes × Bytes)
route_of line = trimmed (split_two (trim_cr line))

abbrev pub known_from : Option (List Bytes) → List Bytes
known_from none = []
known_from (some dests) = dests

-- `graph[from][to] = struct{}{}`, with a map for `from` if there is none.
unfoldable pub add_route : Bytes → Bytes → RouteGraph → RouteGraph
add_route from to graph = insert from (add to (known_from (lookup from graph))) graph

abbrev pub with_route : Option (Bytes × Bytes) → RouteGraph → RouteGraph
with_route none graph = graph
with_route (some (from, to)) graph = add_route from to graph

unfoldable pub read_routes : RouteGraph → List Bytes → RouteGraph
read_routes graph [] = graph
read_routes graph (line ∷ lines) = read_routes (with_route (route_of line) graph) lines

-- `RouteGraph`
unfoldable pub route_graph : List Bytes × Option Bytes → Result Bytes RouteGraph
route_graph (lines, none) = ok (read_routes [] lines)
route_graph (lines, some e) = err e
