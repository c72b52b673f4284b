-- ===== src/Jobs/Sound.antt =====
-- What the tables of internal/db/migrations hold at every moment: the invariant of the store that
-- internal/jobengine/repository.go and its callers keep.
pub mod Counts
pub mod Rows
pub mod Writes
pub mod Removal
pub mod Reports
pub mod Kept
pub mod Ends
pub mod Insertion
pub mod Creation
use flight_circle_search.Base.{
  ℕ, ◌≤◌, ◌≡◌, Bool, true, false, Option, none, some, List, All, count, nat_eq, ◌==◌,
}
use flight_circle_search.Jobs.{JobStatus, SearchJob, SearchJobResult, is_final, is_open, is_done}
use flight_circle_search.Jobs.Store.{World}
use flight_circle_search.Jobs.Repository.{has_id, of_job, of_job_in}

abbrev pub is_some {ℓ} : {A : Type ℓ} → Option A → Bool
is_some none = false
is_some (some a) = true

abbrev pub is_row : ℕ → SearchJobResult → Bool
is_row n r = r.id == n

-- A job counts its rows, of which there are at most `limit`; no more pairs are recorded as failed than as completed, and no more as completed than are done; it has a time of completion exactly if its status is final; and no row of a complete job is open.
pub record IsSoundJob {R : Type 0} (limit : ℕ) (rows : List SearchJobResult) (job : SearchJob R)
    : Type 0 where
  pub counted : job.total_pairs ≡ count (of_job job.id) rows
  pub bounded : job.total_pairs ≤ limit
  pub progress : job.completed_pairs ≤ count (of_job_in job.id is_done) rows
  pub failures : job.failed_pairs ≤ job.completed_pairs
  pub dated : is_some job.completed_at ≡ is_final job.status
  pub closed : job.status ≡ JobStatus.complete → count (of_job_in job.id is_open) rows ≡ 0

-- The ids of jobs and of rows are distinct, those of rows below the next one of the sequence; no row is without its job; and every job is sound.
pub record IsSound {R : Type 0} (limit : ℕ) (w : World R) : Type 0 where
  pub one_job : (id : ℕ) → count (has_id id) w.jobs ≤ 1
  pub one_row : (n : ℕ) → count (is_row n) w.results ≤ 1
  pub numbered : (n : ℕ) → w.next_id ≤ n → count (is_row n) w.results ≡ 0
  pub owned : (id : ℕ) → count (has_id id) w.jobs ≡ 0 → count (of_job id) w.results ≡ 0
  pub each_job : All (IsSoundJob limit w.results) w.jobs
