-- ===== src/Worker/Completion.antt =====
-- How a job comes to its end: the turns of its own searches in which the database answers and no search
-- is given up, among any turns of other searches.
pub mod Tracks
pub mod Others
pub mod Own
pub mod Kept
pub mod Start
pub mod Ends
pub mod Drains
use flight_circle_search.Base.{
  ℕ, ◌<◌, ◌≡◌, ◌≢◌, Bool, true, false, ◌&&◌, Option, some, List, [], ◌∷◌, ◌++◌, Bytes, Result, ok,
  All, count, length, nat_eq, ◌==◌, if◌then◌else◌,
}
use flight_circle_search.Fares.{FareError}
use flight_circle_search.Jobs.{JobStatus, SearchJob, SearchJobResult, is_active, is_open}
use flight_circle_search.Jobs.Store.{World, SearchJobArgs}
use flight_circle_search.Jobs.Repository.{find, has_id, of_job, of_job_in}
use flight_circle_search.Jobs.Progress.{open_rows, done_rows, bad_rows}
use flight_circle_search.Jobs.Sound.{is_some}
use flight_circle_search.Worker.{Wait, acquired, Outcome, work}
use flight_circle_search.Worker.Turns.{after_turn, left_over}
use flight_circle_search.Worker.Outcomes.{Verdict, verdict, pending_outcome}

module _ {R Fare : Type 0} (encode : List Fare → Option Bytes) (id : ℕ) where
  -- A turn of a search of the job that decides it, or leaves it for another attempt, on a store that answers; or any turn of a search of another job.
  pub data HealthyTurn (w w' : World R) : Type 0 where
    decides :
        (front back : List SearchJobArgs) (a : SearchJobArgs)
        (answer : Result FareError (List Fare)) (v : Verdict) (clock : ℕ)
        → w.queue ≡ front ++ a ∷ back
        → a.job_id ≡ id
        → verdict encode answer ≡ ok v
        → w'
          ≡ after_turn front back a
              (work encode acquired answer a (record w { faults = []; clock = clock }))
        → HealthyTurn w w'
    delays :
        (front back : List SearchJobArgs) (a : SearchJobArgs) (wait : Wait)
        (answer : Result FareError (List Fare)) (o : Outcome) (clock : ℕ)
        → w.queue ≡ front ++ a ∷ back
        → a.job_id ≡ id
        → pending_outcome encode wait answer ≡ some o
        → 0 < length (left_over a o)
        → w'
          ≡ after_turn front back a
              (work encode wait answer a (record w { faults = []; clock = clock }))
        → HealthyTurn w w'
    others :
        (front back : List SearchJobArgs) (a : SearchJobArgs) (wait : Wait)
        (answer : Result FareError (List Fare)) (faults : List (Option Bytes)) (clock : ℕ)
        → w.queue ≡ front ++ a ∷ back
        → a.job_id ≢ id
        → w'
          ≡ after_turn front back a
              (work encode wait answer a (record w { faults = faults; clock = clock }))
        → HealthyTurn w w'

  pub data Healthy (w : World R) : World R → Type 0 where
    begin : Healthy w w
    step : {v u : World R} → Healthy w v → HealthyTurn v u → Healthy w u

-- A search of the job for the result `n`.
abbrev pub queued : ℕ → ℕ → SearchJobArgs → Bool
queued id n a = a.job_id == id && a.result_id == n

-- The row `n`, if it is one of the job.
abbrev pub row_of : ℕ → ℕ → SearchJobResult → Bool
row_of id n r = r.id == n && of_job id r

abbrev pub open_row : ℕ → ℕ → SearchJobResult → Bool
open_row id n r = r.id == n && of_job_in id is_open r

-- A search of another job is not for a row of this one.
abbrev pub IsForeign : ℕ → List SearchJobResult → SearchJobArgs → Type 0
IsForeign id rows a = a.job_id ≢ id → count (row_of id a.result_id) rows ≡ 0

-- The job is finished, as failed exactly if all its pairs have, and its counters are those of its rows.
pub record IsEnded {R : Type 0} (id : ℕ) (w : World R) (job : SearchJob R) : Type 0 where
  pub outcome :
      job.status
      ≡ (if bad_rows id w == job.total_pairs then JobStatus.failed else JobStatus.complete)
  pub completed : job.completed_pairs ≡ done_rows id w
  pub failed : job.failed_pairs ≡ bad_rows id w
  pub dated : is_some job.completed_at ≡ true

-- As many searches of the job are queued for a row as the row is open; while a row is open the job is unfinished, and then it has ended.
pub record IsTracked {R : Type 0} (id : ℕ) (w : World R) : Type 0 where
  pub job : SearchJob R
  pub stored : find (has_id id) w.jobs ≡ some job
  pub matched : (n : ℕ) → count (queued id n) w.queue ≡ count (open_row id n) w.results
  pub foreign : All (IsForeign id w.results) w.queue
  pub active : 0 < open_rows id w → is_active job.status ≡ true
  pub ended : open_rows id w ≡ 0 → IsEnded id w job
