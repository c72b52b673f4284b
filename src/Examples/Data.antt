-- ===== src/Examples/Data.antt =====
-- Concrete data for the tests. Whole numbers stand in for float64, with angles that are lengths.
use flight_circle_search.Base.{ℕ, ◌+◌, ◌-◌, ◌*◌, ◌/◌, ltb, leb, List, [], ◌∷◌, codes, ok, String}
use flight_circle_search.Floats.{Floats}
use flight_circle_search.Geo
use flight_circle_search.Routes
use flight_circle_search.Routes.{RouteGraph}
use flight_circle_search.Dates.{Date}
use flight_circle_search.Jobs.{SearchRequest}
use flight_circle_search.Jobs.Store.{World}
use flight_circle_search.Jobs.Service.{AirportSource, Service}

abbrev pub whole : Floats
whole = record {
  Float = ℕ;
  lt = ltb;
  le = leb;
  add = λ a b. a + b;
  sub = λ a b. (a - b) + (b - a);
  mul = λ a b. a * b;
  div = λ a b. a / b;
  neg = λ a. 0;
  of_ℕ = λ n. n;
  pi = 180;
  sin = λ a. a;
  cos = λ a. 1;
  sqrt = λ a. a;
  atan2 = λ a b. a;
  round = λ a. a;
}

abbrev pub airport : String → ℕ → Geo.Airport ℕ
airport code at = record { iata = codes code; name = []; location = record { lat = at; lng = at } }

abbrev pub stop : String → Routes.Airport ℕ
stop code = record { iata = codes code; name = []; location = record { lat = 10; lng = 10 } }

-- Two airports near 10, one of which is listed twice, and one near 40.
abbrev pub airports : List (Geo.Airport ℕ)
airports = airport "AAA" 10 ∷ airport "BBB" 11 ∷ airport "AAA" 10 ∷ airport "CCC" 40 ∷ []

-- AAA and CCC are linked through HHH only.
abbrev pub graph : RouteGraph
graph = (codes "AAA", codes "HHH" ∷ []) ∷ (codes "CCC", codes "HHH" ∷ []) ∷ []

abbrev pub source : AirportSource ℕ
source = record { airports = ok airports; route_graph = ok graph }

-- A graph without a route.
abbrev pub isolated : AirportSource ℕ
isolated = record { airports = ok airports; route_graph = ok [] }

abbrev pub service : Service
service = record { max_pairs = 5000; hubs = codes "HHH" ∷ [] }

abbrev pub first_day : Date
first_day = record { year = 2024; month = 2; day = 28 }

abbrev pub last_day : Date
last_day = record { year = 2024; month = 3; day = 1 }

abbrev pub request : SearchRequest ℕ
request = record {
  origin_lat = 10;
  origin_lng = 10;
  origin_r = 100;
  dest_lat = 40;
  dest_lng = 40;
  dest_r = 100;
  depart_from = codes "2024-02-28";
  depart_to = codes "2024-03-01";
}

abbrev pub empty_world : World (SearchRequest ℕ)
empty_world = record { jobs = []; results = []; next_id = 1; clock = 7; queue = []; faults = [] }
