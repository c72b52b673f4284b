-- ===== src/Geo.antt =====
-- internal/geo/resolve.go: points, airports and the airports within a circle. An error return is
-- `err`; the map `seen` is the list of the codes that were set to true.
pub mod Resolved
pub mod Circle
use flight_circle_search.Base.{
  Bool, true, false, ◌||◌, List, [], ◌∷◌, ◌++◌, Bytes, bytes_eq, Result, ok, err, contains,
  if◌then◌else◌,
}
use flight_circle_search.Floats.{Floats}

pub record Point (F : Type 0) : Type 0 where
  pub lat : F
  pub lng : F

pub record Airport (F : Type 0) : Type 0 where
  pub iata : Bytes
  pub name : Bytes
  pub location : Point F

pub data GeoError : Type 0 where
  invalid_coordinates : GeoError

-- The variables that the loop of `ResolveAirports` writes.
pub record Found (F : Type 0) : Type 0 where
  pub result : List (Airport F)
  pub seen : List Bytes

module _ (fl : Floats) where
  open fl use {Float, lt, le, add, sub, mul, div, neg, of_ℕ, pi, sin, cos, sqrt, atan2}

  unfoldable pub haversine_distance_km : Point Float → Point Float → Float
  haversine_distance_km a b =
      let lat1 = a.lat in
      let lon1 = a.lng in
      let lat2 = b.lat in
      let lon2 = b.lng in
      let d_lat = div (mul (sub lat2 lat1) pi) (of_ℕ 180) in
      let d_lon = div (mul (sub lon2 lon1) pi) (of_ℕ 180) in
      let lat1r = div (mul lat1 pi) (of_ℕ 180) in
      let lat2r = div (mul lat2 pi) (of_ℕ 180) in
      let h = add (mul (sin (div d_lat (of_ℕ 2))) (sin (div d_lat (of_ℕ 2)))) (
        mul (mul (mul (sin (div d_lon (of_ℕ 2))) (sin (div d_lon (of_ℕ 2)))) (cos lat1r))
          (cos lat2r)) in
      let c = mul (of_ℕ 2) (atan2 (sqrt h) (sqrt (sub (of_ℕ 1) h))) in mul (of_ℕ 6371) c

  unfoldable pub is_valid_point : Point Float → Bool
  is_valid_point p =
      if lt p.lat (neg (of_ℕ 90)) || lt (of_ℕ 90) p.lat
      then false
      else if lt p.lng (neg (of_ℕ 180)) || lt (of_ℕ 180) p.lng
      then false
      else true

  -- One round of the loop over the airports.
  unfoldable pub visit : Point Float → Float → Found Float → Airport Float → Found Float
  visit center radius s a =
      if is_valid_point a.location
      then (if le (haversine_distance_km center a.location) radius
          then (if contains a.iata s.seen
              then s
              else record { result = s.result ++ a ∷ []; seen = a.iata ∷ s.seen })
          else s)
      else s

  unfoldable pub visit_all : Point Float → Float → Found Float → List (Airport Float) → Found Float
  visit_all center radius s [] = s
  visit_all center radius s (a ∷ rest) = visit_all center radius (visit center radius s a) rest

  unfoldable pub resolve_airports :
      Point Float → Float → List (Airport Float) → Result GeoError (List (Airport Float))
  resolve_airports center radius airports =
      if le radius (of_ℕ 0)
      then ok []
      else if is_valid_point center
      then ok (visit_all center radius (record { result = []; seen = [] }) airports).result
      else err invalid_coordinates
