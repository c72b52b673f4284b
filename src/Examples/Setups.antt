-- ===== src/Examples/Setups.antt =====
-- Offers, caches, migrations and routes at concrete inputs.
use flight_circle_search.Base.{
  ℕ, ◌≡◌, ◌↔◌, refl, true, none, some, List, [], ◌∷◌, ◌++◌, Bytes, codes, bytes_eq, bytes_beq,
  Result, ok, take, contains, keep,
}
use flight_circle_search.Fares.{SearchRequest, Fare}
use flight_circle_search.Fares.Travelpayouts.{validate_request, replied}
use flight_circle_search.Fares.Duffel.{
  DuffelCalls, Offer, Segment, Place, create_offer_request, duffel_search,
}
use flight_circle_search.Fares.Offered.{Lists, duffel_search-Lists}
use flight_circle_search.Dates.{
  matches, in_class, is_digit, parse_date, digits, dash, check_date, days_in, is_leap,
}
use flight_circle_search.Cache.Remote.{memory_cache, redis_cache}
use flight_circle_search.Cache.Contract.{IsKeeping, ReadsLater, lasting, expiring, caches-IsKeeping}
use flight_circle_search.Migrations.{
  migrate, call, migrate_dir, migrate_each, sort_strings, insert_sorted, bytes_leb, migrate_one,
  apply_script, in_transaction, returns, Database, Directory, run_river_migrations,
}
use flight_circle_search.Migrations.History.{IsReplay}
use flight_circle_search.Migrations.Safe.{IsOurs, run_river_migrations-IsReplay}
use flight_circle_search.Migrations.Recorded.{IsRecorded, run_river_migrations_again}
use flight_circle_search.Routes.{RouteGraph, has}
use flight_circle_search.Api.Airports.{route_graph}
use flight_circle_search.Api.Lines.{IsGiven, has-route_graph_iff}
use flight_circle_search.Examples.Sorting.{sort_fares, sort_fares-SortsSlices}
use flight_circle_search.Examples.Server.{server, server-IsRedis}
use flight_circle_search.Examples.Data.{whole}

abbrev request : SearchRequest
request = record { origin = codes "AAA"; destination = codes "CCC"; date = codes "2024-02-28" }

valid : validate_request request ≡ none
unfolding validate_request matches in_class is_digit parse_date digits dash check_date days_in
    is_leap bytes_beq
valid = refl

abbrev place : Place
place = record { iata_code = codes "AAA"; name = [] }

abbrev segment : Segment
segment = record {
  operating_carrier = record { name = []; iata_code = codes "XX" };
  operating_carrier_flight_number = codes "1";
  departing_at = codes "t";
  arriving_at = codes "u";
  origin = place;
  destination = place;
  duration = codes "PT1H";
}

abbrev offer : ℕ → Offer
offer price = record {
  id = codes "o";
  total_amount = price ∷ [];
  total_currency = codes "EUR";
  expires_at = [];
  owner = record { name = []; iata_code = [] };
  slices = record { duration = []; segments = segment ∷ [] } ∷ [];
}

-- A provider that answers with a status and these offers.
abbrev duffel : ℕ → List Offer → DuffelCalls whole
duffel status offers = record {
  offer_requests = λ origin destination date. replied status (some []);
  unmarshal = λ bytes. some offers;
  parse_time = λ text. some 5;
  scan_float = λ text. elim text [ [] ↦ none | n ∷ rest ↦ some n ];
  sort_slice = sort_fares;
}

abbrev offers : List Offer
offers = offer 9 ∷ offer 7 ∷ []

created : create_offer_request (duffel 200 offers) request ≡ ok offers
unfolding create_offer_request
created = refl

duffel_search-Lists_example :
    (out : List Fare) × (duffel_search (duffel 200 offers) request ≡ ok out)
    × Lists (duffel 200 offers) request offers out
duffel_search-Lists_example =
    duffel_search-Lists (duffel 200 offers) request offers sort_fares-SortsSlices valid created

caches-IsKeeping_example :
    IsKeeping memory_cache
    × ReadsLater memory_cache lasting
    × IsKeeping (redis_cache server server.set)
    × ReadsLater (redis_cache server server.set) expiring
caches-IsKeeping_example = caches-IsKeeping server server.set server-IsRedis (λ key value n s. refl)

-- A schema is the bytes of the scripts that made it.
abbrev run : Bytes → Bytes → Result Bytes Bytes
run script schema = ok (schema ++ script)

abbrev ours : Directory
ours = record {
  names = ok (codes "002_b.up.sql" ∷ codes "001_a.up.sql" ∷ codes "001_a.down.sql" ∷ []);
  read_file = λ name. ok (take 5 name);
}

abbrev theirs : Directory
theirs = record { names = ok (codes "01_r.up.sql" ∷ []); read_file = λ name. ok (take 4 name) }

-- A database whose third call fails.
abbrev fragile : Database Bytes
fragile = record { schema = []; versions = []; faults = none ∷ none ∷ some (codes "down") ∷ [] }

run_river_migrations-IsReplay_example :
    IsReplay run [] (IsOurs run [] ours theirs) (run_river_migrations run ours theirs fragile).1
run_river_migrations-IsReplay_example =
    run_river_migrations-IsReplay run [] ours theirs fragile
      (record { history = []; recorded = refl; replayed = refl; known = tt; distinct = tt })

abbrev steady : Database Bytes
steady = record fragile { faults = [] }

abbrev migrated : Database Bytes
migrated = record {
  schema = codes "001_a002_b01_r";
  versions = codes "001_a" ∷ codes "002_b" ∷ codes "01_r" ∷ [];
  faults = [];
}

migrates : run_river_migrations run ours theirs steady ≡ (ok tt, migrated)
unfolding run_river_migrations migrate call migrate_dir migrate_each sort_strings insert_sorted
    bytes_leb keep bytes_beq migrate_one contains apply_script in_transaction returns
migrates = refl

run_river_migrations_again_example :
    IsRecorded (codes "002_b.up.sql" ∷ codes "001_a.up.sql" ∷ codes "001_a.down.sql" ∷ []) migrated
    × IsRecorded (codes "01_r.up.sql" ∷ []) migrated
    × (run_river_migrations run ours theirs (record migrated { faults = [] })
        ≡ (ok tt, record migrated { faults = [] }))
run_river_migrations_again_example =
    run_river_migrations_again run ours theirs
      (codes "002_b.up.sql" ∷ codes "001_a.up.sql" ∷ codes "001_a.down.sql" ∷ [])
      (codes "01_r.up.sql" ∷ []) steady migrated refl refl migrates

has-route_graph_iff_example :
    (graph : RouteGraph) × (route_graph (codes "AAA, BBB" ∷ codes "CCC" ∷ [], none) ≡ ok graph)
    × ((has graph (codes "AAA") (codes "BBB") ≡ true)
        ↔ IsGiven (codes "AAA") (codes "BBB") (codes "AAA, BBB" ∷ codes "CCC" ∷ []))
has-route_graph_iff_example =
    has-route_graph_iff (codes "AAA, BBB" ∷ codes "CCC" ∷ []) (codes "AAA") (codes "BBB")
