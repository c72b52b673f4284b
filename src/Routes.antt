-- ===== src/Routes.antt =====
-- internal/routes/routes.go: the route graph and the pairs of airports that a job searches. A Go
-- map is a list of entries; the loop over the hub set visits that list.
pub mod Pairs
pub mod Hubs
use flight_circle_search.Base.{
  Bool, true, false, ◌&&◌, ◌||◌, Option, none, some, List, [], ◌∷◌, ◌++◌, Bytes, bytes_eq, lookup,
  contains, set_of, keep, ◌==◌, length, nat_eq, if◌then◌else◌,
}
use flight_circle_search.Geo.{Point}

pub record Airport (F : Type 0) : Type 0 where
  pub iata : Bytes
  pub name : Bytes
  pub location : Point F

abbrev pub RouteGraph : Type 0
RouteGraph = List (Bytes × List Bytes)

unfoldable pub has : RouteGraph → Bytes → Bytes → Bool
has g from to = elim (lookup from g) [ none ↦ false | some dests ↦ contains to dests ]

pub record AirportPair (F : Type 0) : Type 0 where
  pub origin : Airport F
  pub destination : Airport F

-- The body of the loop over the hubs; `continue` and the end of the body go on with the rest.
unfoldable pub reachable_via_hub : Bytes → Bytes → RouteGraph → List Bytes → Bool
reachable_via_hub from to graph [] = false
reachable_via_hub from to graph (hub ∷ hubs) =
    let rest = reachable_via_hub from to graph hubs in
    if hub == from || hub == to
    then rest
    else if (has graph from hub || has graph hub from) && (has graph hub to || has graph to hub)
    then true
    else rest

module _ {F : Type 0} where
  -- The inner loop, for one origin.
  unfoldable pub pairs_from : Airport F → List (Airport F) → List (AirportPair F)
  pairs_from o [] = []
  pairs_from o (d ∷ ds) =
      let rest = pairs_from o ds in
      if o.iata == d.iata then rest else record { origin = o; destination = d } ∷ rest

  unfoldable pub generate_all_pairs : List (Airport F) → List (Airport F) → List (AirportPair F)
  generate_all_pairs [] destinations = []
  generate_all_pairs (o ∷ origins) destinations =
      pairs_from o destinations ++ generate_all_pairs origins destinations

  unfoldable pub has_direct : RouteGraph → AirportPair F → Bool
  has_direct graph p =
      has graph p.origin.iata p.destination.iata || has graph p.destination.iata p.origin.iata

  unfoldable pub filter_by_routes : List (AirportPair F) → RouteGraph → List (AirportPair F)
  filter_by_routes pairs graph = keep (has_direct graph) pairs

  unfoldable pub filter_existing_routes :
      List (Airport F) → List (Airport F) → RouteGraph → List (AirportPair F)
  filter_existing_routes origins destinations graph =
      filter_by_routes (generate_all_pairs origins destinations) graph

  -- Whether the loop body of `FilterByRoutesWithHubs` appends the pair.
  unfoldable pub keeps_pair : RouteGraph → List Bytes → AirportPair F → Bool
  keeps_pair graph hub_set p =
      let from = p.origin.iata in
      let to = p.destination.iata in
      if has graph from to || has graph to from
      then true
      else if reachable_via_hub from to graph hub_set
      then true
      else false

  unfoldable pub filter_by_routes_with_hubs :
      List (AirportPair F) → RouteGraph → List Bytes → List (AirportPair F)
  filter_by_routes_with_hubs pairs graph hubs =
      if length hubs == 0
      then filter_by_routes pairs graph
      else keep (keeps_pair graph (set_of hubs)) pairs
