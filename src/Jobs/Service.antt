-- ===== src/Jobs/Service.antt =====
-- internal/jobengine/service.go: the pairs of a request, and the submission of a job. The airport
-- source is an argument, what its two methods return; the enqueuer is the one of
-- internal/api/river.go.
use flight_circle_search.Base.{
  ℕ, Option, none, some, List, [], ◌∷◌, ◌++◌, map, Bytes, codes, Result, ok, err, ltb, nat_eq, ◌==◌,
  if◌then◌else◌, length, ◌>>=◌,
}
use flight_circle_search.Floats.{Floats}
use flight_circle_search.Geo
use flight_circle_search.Geo.{GeoError, resolve_airports}
use flight_circle_search.Routes
use flight_circle_search.Routes.{
  RouteGraph, AirportPair, generate_all_pairs, filter_by_routes_with_hubs,
}
use flight_circle_search.Dates.{RangeError, expand_date_range}
use flight_circle_search.Jobs.{
  SearchRequest, SearchJob, SearchJobResult, JobStatus, RowStatus, max_pairs_per_job,
}
use flight_circle_search.Jobs.Validate.{Field, validate_request}
use flight_circle_search.Jobs.Store.{
  World, RepoError, job_not_found, failure, SearchJobArgs, call, Exec,
}
use flight_circle_search.Jobs.Repository.{create_job, get_pending_results, mark_job_status}

pub record AirportSource (F : Type 0) : Type 0 where
  pub airports : Result Bytes (List (Geo.Airport F))
  pub route_graph : Result Bytes RouteGraph

pub record GeneratedPair : Type 0 where
  pub origin : Bytes
  pub destination : Bytes
  pub date : Bytes

pub data SubmitError : Type 0 where
  invalid_input : Field → SubmitError
  load_airports load_routes enqueue_failed : Bytes → SubmitError
  resolve_origins resolve_destinations : GeoError → SubmitError
  date_range : RangeError → SubmitError
  too_many_pairs : ℕ → SubmitError
  persist_job fetch_result_ids mark_running : RepoError → SubmitError

-- What `Submit` returns beside the store.
pub record Submission : Type 0 where
  pub id : ℕ
  pub total : ℕ
  pub error : Option SubmitError

pub record Service : Type 0 where
  pub max_pairs : ℕ
  pub hubs : List Bytes

abbrev pub default_hubs : List Bytes
default_hubs = map codes (
    "LHR" ∷ "FRA" ∷ "AMS" ∷ "CDG" ∷ "IST" ∷ "DUB" ∷ "MAD" ∷ "MUC" ∷ "ZRH" ∷ "BCN" ∷ "YYZ" ∷ "YVR"
    ∷ "MEX" ∷ "DFW" ∷ "ORD" ∷ "ATL" ∷ "JFK" ∷ "LAX" ∷ "SFO" ∷ "GRU" ∷ "EZE" ∷ "DXB" ∷ "DOH" ∷ "PEK"
    ∷ "PVG" ∷ "HND" ∷ "NRT" ∷ "ICN" ∷ "BKK" ∷ "DEL" ∷ "BOM" ∷ "BRU" ∷ "MIL" ∷ "CAI" ∷ [])

abbrev pub new_service : Service
new_service = record { max_pairs = max_pairs_per_job; hubs = default_hubs }

-- `fmt.Errorf("…: %w", err)`, as a constructor around the error.
abbrev pub wrap {ℓ κ μ} : {E : Type κ} {D : Type μ} {A : Type ℓ} → (E → D) → Result E A → Result D A
wrap f (ok a) = ok a
wrap f (err e) = err (f e)

module _ {F : Type 0} where
  unfoldable pub to_routes_airports : List (Geo.Airport F) → List (Routes.Airport F)
  to_routes_airports [] = []
  to_routes_airports (a ∷ rest) =
      record { iata = a.iata; name = a.name; location = a.location } ∷ to_routes_airports rest

  -- The loop over the dates, for one pair.
  unfoldable pub dated : AirportPair F → List Bytes → List GeneratedPair
  dated p [] = []
  dated p (d ∷ dates) =
      record { origin = p.origin.iata; destination = p.destination.iata; date = d } ∷ dated p dates

  unfoldable pub all_dated : List (AirportPair F) → List Bytes → List GeneratedPair
  all_dated [] dates = []
  all_dated (p ∷ pairs) dates = dated p dates ++ all_dated pairs dates

module _ (fl : Floats) where
  open fl use {Float}

  unfoldable pub generate_tuples :
      AirportSource Float
      → List Bytes
      → SearchRequest Float
      → Result SubmitError (List GeneratedPair)
  generate_tuples source hubs req = do
    _ ← wrap invalid_input (validate_request fl req)
    airports ← wrap load_airports source.airports
    graph ← wrap load_routes source.route_graph
    origins ← wrap resolve_origins (
        resolve_airports fl (record { lat = req.origin_lat; lng = req.origin_lng }) req.origin_r
          airports)
    destinations ← wrap resolve_destinations (
        resolve_airports fl (record { lat = req.dest_lat; lng = req.dest_lng }) req.dest_r airports)
    let pairs =
        filter_by_routes_with_hubs
          (generate_all_pairs (to_routes_airports origins) (to_routes_airports destinations)) graph
          hubs
    dates ← wrap date_range (expand_date_range req.depart_from req.depart_to)
    ok (all_dated pairs dates)

abbrev pub repo_text : RepoError → Bytes
repo_text job_not_found = codes "job not found"
repo_text (failure text) = text

-- The rows that `Submit` hands to `CreateJob`: only the three first fields of a pair are set.
unfoldable pub to_results : List GeneratedPair → List SearchJobResult
to_results [] = []
to_results (p ∷ pairs) =
    record {
      id = 0;
      job_id = 0;
      origin = p.origin;
      destination = p.destination;
      departure_date = p.date;
      status = RowStatus.pending;
      fare = none;
      error = none;
      completed_at = none;
    }
    ∷ to_results pairs

-- `EnqueueBatch` (internal/api/river.go): a queued search for each result, with five attempts.
unfoldable pub to_args : List SearchJobResult → List SearchJobArgs
to_args [] = []
to_args (r ∷ results) =
    record {
      result_id = r.id;
      job_id = r.job_id;
      origin = r.origin;
      destination = r.destination;
      date = r.departure_date;
      attempts = 5;
    }
    ∷ to_args results

module _ {R : Type 0} where
  unfoldable pub enqueue_batch : List SearchJobResult → Exec R (Unit {0})
  enqueue_batch results w =
      if length results == 0
      then (ok tt, w)
      else call [] (λ v. (tt, record v { queue = v.queue ++ to_args results })) w

  -- A failure of the update is logged and dropped.
  unfoldable pub mark_failed_best_effort : ℕ → Bytes → World R → World R
  mark_failed_best_effort id cause w = (mark_job_status id JobStatus.failed (some cause) w).1

  unfoldable pub start_running : ℕ → ℕ → World R → Submission × World R
  start_running id total w =
      let (r, w') = mark_job_status id JobStatus.running none w in
      elim r [
        | err e ↦ (record { id = id; total = total; error = some (mark_running e) }, w')
        | ok _ ↦ (record { id = id; total = total; error = none }, w')
      ]

  unfoldable pub enqueue_results : ℕ → ℕ → List SearchJobResult → World R → Submission × World R
  enqueue_results id total inserted w =
      let (r, w') = enqueue_batch inserted w in
      elim r [
        | err e ↦ (
          record { id = id; total = total; error = some (enqueue_failed (repo_text e)) },
          mark_failed_best_effort id (codes "enqueue: " ++ repo_text e) w',
        )
        | ok _ ↦ start_running id total w'
      ]

  unfoldable pub fetch_and_enqueue : ℕ → ℕ → World R → Submission × World R
  fetch_and_enqueue id total w =
      let (r, w') = get_pending_results id w in
      elim r [
        | err e ↦ (
          record { id = id; total = total; error = some (fetch_result_ids e) },
          mark_failed_best_effort id (codes "fetch result ids: " ++ repo_text e) w',
        )
        | ok inserted ↦ enqueue_results id total inserted w'
      ]

  -- The job that `Submit` builds; the fields that it leaves out are zero.
  abbrev pub new_job : R → ℕ → SearchJob R
  new_job req total = record {
    id = 0;
    status = JobStatus.pending;
    submitted_at = 0;
    completed_at = none;
    total_pairs = total;
    completed_pairs = 0;
    failed_pairs = 0;
    error_summary = none;
    request = req;
  }

  unfoldable pub persist : ℕ → R → List GeneratedPair → World R → Submission × World R
  persist fresh req pairs w =
      let results = to_results pairs in
      let (r, w') = create_job fresh (new_job req (length results)) results w in
      elim r [
        | err e ↦ (record { id = 0; total = 0; error = some (persist_job e) }, w')
        | ok id ↦ fetch_and_enqueue id (length results) w'
      ]

-- `Submit`; `fresh` is the UUID that `CreateJob` draws.
unfoldable pub submit :
    (fl : Floats)
    → Service
    → AirportSource fl.Float
    → ℕ
    → SearchRequest fl.Float
    → World (SearchRequest fl.Float)
    → Submission × World (SearchRequest fl.Float)
submit fl s source fresh req w = elim (generate_tuples fl source s.hubs req) [
  | err e ↦ (record { id = 0; total = 0; error = some e }, w)
  | ok pairs ↦
      if ltb s.max_pairs (length pairs)
      then (
        record { id = 0; total = length pairs; error = some (too_many_pairs (length pairs)) },
        w,
      )
      else persist fresh req pairs w
]
