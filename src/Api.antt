-- ===== src/Api.antt =====
-- internal/api/handlers.go: the endpoints that submit a job and show it, and internal/api/health.go.
-- The decoder of a body, UUIDs as texts and the texts of errors are parameters. An RFC 3339 time and
-- a raw JSON text are written as they are.
pub mod Views
pub mod Statuses
pub mod Server
pub mod Guarded
pub mod Entry
pub mod Airports
pub mod Graph
pub mod Lines
use flight_circle_search.Base.{
  ℕ, Bool, true, false, Option, none, some, List, [], ◌∷◌, map, Bytes, codes, bytes_eq, ◌==◌,
  Result, ok, err, ◌++◌,
}
use flight_circle_search.Floats.{Floats}
use flight_circle_search.Jobs.{SearchRequest, SearchJob, SearchJobResult, JobStatus, RowStatus}
use flight_circle_search.Jobs.Store.{World, RepoError, job_not_found, failure}
use flight_circle_search.Jobs.Repository.{get_job, list_results}
use flight_circle_search.Jobs.Service.{
  Service, AirportSource, Submission, SubmitError, invalid_input, load_airports, load_routes,
  enqueue_failed, resolve_origins, resolve_destinations, date_range, too_many_pairs, persist_job,
  fetch_result_ids, mark_running, submit, repo_text,
}
use flight_circle_search.Http.{
  Request, Response, Writer, Site, Body, raw, value, write, write_json, write_error,
}

pub record SubmitResponse : Type 0 where
  pub job_id : Bytes
  pub total_pairs : ℕ

pub record ResultResponse : Type 0 where
  pub origin : Bytes
  pub destination : Bytes
  pub departure_date : Bytes
  pub status : Bytes
  pub fare : Option Bytes
  pub error : Option Bytes

-- `submitRequest` has the fields of `SearchRequest`, under the same JSON names.
pub record JobResponse (F : Type 0) : Type 0 where
  pub id : Bytes
  pub status : Bytes
  pub submitted_at : ℕ
  pub completed_at : Option ℕ
  pub total_pairs : ℕ
  pub completed_pairs : ℕ
  pub failed_pairs : ℕ
  pub error_summary : Option Bytes
  pub request : SearchRequest F
  pub results : List ResultResponse

-- What the two endpoints write when they succeed.
pub data Answer (F : Type 0) : Type 0 where
  submitted : SubmitResponse → Answer F
  shown : JobResponse F → Answer F

pub record Calls (F : Type 0) : Type 0 where
  pub decode_submit : Bytes → Result Bytes (SearchRequest F)
  pub parse_id : Bytes → Option ℕ
  pub show_id : ℕ → Bytes
  pub submit_text : SubmitError → Bytes

-- The text of a status, as the source declares it and the table holds it.
abbrev pub job_status_text : JobStatus → Bytes
job_status_text JobStatus.pending = codes "pending"
job_status_text JobStatus.running = codes "running"
job_status_text JobStatus.complete = codes "complete"
job_status_text JobStatus.failed = codes "failed"

abbrev pub row_status_text : RowStatus → Bytes
row_status_text RowStatus.pending = codes "pending"
row_status_text RowStatus.claimed = codes "claimed"
row_status_text RowStatus.complete = codes "complete"
row_status_text RowStatus.failed = codes "failed"
row_status_text RowStatus.dead_letter = codes "dead_letter"

-- The status and the code of the answer to an error of `Submit`, by what the error wraps.
abbrev pub submit_status : SubmitError → ℕ × Bytes
submit_status (too_many_pairs n) = (413, codes "too_many_pairs")
submit_status (invalid_input field) = (400, codes "invalid_input")
submit_status _ = (500, codes "internal")

unfoldable pub to_result_response : SearchJobResult → ResultResponse
to_result_response r = record {
  origin = r.origin;
  destination = r.destination;
  departure_date = r.departure_date;
  status = row_status_text r.status;
  fare = r.fare;
  error = r.error;
}

abbrev pub repo_error : {F : Type 0} → RepoError → Writer → Response (Answer F)
repo_error e = write_error 500 (codes "internal") (repo_text e)

module _ {F : Type 0} (calls : Calls F) where
  open calls use {show_id}

  unfoldable pub to_job_response :
      SearchJob (SearchRequest F) → List SearchJobResult → JobResponse F
  to_job_response job results = record {
    id = show_id job.id;
    status = job_status_text job.status;
    submitted_at = job.submitted_at;
    completed_at = job.completed_at;
    total_pairs = job.total_pairs;
    completed_pairs = job.completed_pairs;
    failed_pairs = job.failed_pairs;
    error_summary = job.error_summary;
    request = job.request;
    results = map to_result_response results;
  }

module _ {S : Type 0} (fl : Floats) (calls : Calls fl.Float) where
  open fl use {Float}
  open calls use {decode_submit, parse_id, show_id, submit_text}

  abbrev pub submission :
      Writer
      → Site S (SearchRequest Float)
      → Submission × World (SearchRequest Float)
      → Response (Answer Float) × Site S (SearchRequest Float)
  submission w s (sub, jobs) = (
    elim sub.error [
      | none ↦
          write_json 202
            (value (submitted (record { job_id = show_id sub.id; total_pairs = sub.total }))) w
      | some e ↦ write_error (submit_status e).0 (submit_status e).1 (submit_text e) w
    ],
    record s { jobs = jobs },
  )

  -- `fresh` is the UUID that is drawn for the job.
  unfoldable pub submit_handler :
      Service
      → AirportSource Float
      → ℕ
      → Request
      → Writer
      → Site S (SearchRequest Float)
      → Response (Answer Float) × Site S (SearchRequest Float)
  submit_handler svc source fresh r w s = elim (decode_submit r.body) [
    | err text ↦ (write_error 400 (codes "invalid_json") text w, s)
    | ok req ↦ submission w s (submit fl svc source fresh req s.jobs)
  ]

  abbrev pub with_results :
      SearchJob (SearchRequest Float)
      → Writer
      → Site S (SearchRequest Float)
      → Result RepoError (List SearchJobResult) × World (SearchRequest Float)
      → Response (Answer Float) × Site S (SearchRequest Float)
  with_results job w s (ok results, jobs) = (
    write_json 200 (value (shown (to_job_response calls job results))) w,
    record s { jobs = jobs },
  )
  with_results job w s (err e, jobs) = (repo_error e w, record s { jobs = jobs })

  abbrev pub with_job :
      Bool
      → ℕ
      → Writer
      → Site S (SearchRequest Float)
      → Result RepoError (SearchJob (SearchRequest Float)) × World (SearchRequest Float)
      → Response (Answer Float) × Site S (SearchRequest Float)
  with_job include id w s (err job_not_found, jobs) =
      (write_error 404 (codes "not_found") (codes "job not found") w, record s { jobs = jobs })
  with_job include id w s (err (failure text), jobs) =
      (repo_error (failure text) w, record s { jobs = jobs })
  with_job true id w s (ok job, jobs) = with_results job w s (list_results id jobs)
  with_job false id w s (ok job, jobs) =
      (write_json 200 (value (shown (to_job_response calls job []))) w, record s { jobs = jobs })

  unfoldable pub get_handler :
      Request
      → Writer
      → Site S (SearchRequest Float)
      → Response (Answer Float) × Site S (SearchRequest Float)
  get_handler r w s = elim (parse_id (r.path_value (codes "id"))) [
    | none ↦ (write_error 400 (codes "invalid_id") (codes "job id must be a UUID") w, s)
    | some id ↦ with_job (r.query (codes "include") == codes "results") id w s (get_job id s.jobs)
  ]

module _ {W J : Type 0} where
  unfoldable pub health_handler : Request → Writer → W → Response J × W
  health_handler r w s = (write 200 (raw (codes "{\"status\":\"ok\"}")) w, s)

  -- What the two pings return.
  unfoldable pub ready_handler :
      Result Bytes (Unit {0}) → Result Bytes (Unit {0}) → Request → Writer → W → Response J × W
  ready_handler pool redis r w s = elim pool [
    | err e ↦ (write_error 503 (codes "not_ready") (codes "database: " ++ e) w, s)
    | ok _ ↦ elim redis [
      | err e ↦ (write_error 503 (codes "not_ready") (codes "redis: " ++ e) w, s)
      | ok _ ↦ (write 200 (raw (codes "{\"status\":\"ready\"}")) w, s)
    ]
  ]
