-- ===== src/Jobs.antt =====
-- internal/jobengine/types.go: search requests, jobs and their per-pair results. A UUID is a number,
-- 0 the nil UUID; a time is a number of nanoseconds; a request is stored as it is (the table holds its
-- JSON text).
pub mod Validate
pub mod Store
pub mod Repository
pub mod Keeps
pub mod Tables
pub mod Progress
pub mod Service
pub mod Tuples
pub mod Submit
pub mod Deletion
pub mod Sound
pub mod Methods
use flight_circle_search.Base.{ℕ, Bool, true, false, ◌||◌, Option, List, Bytes}

pub data JobStatus : Type 0 where
  pending running complete failed : JobStatus

-- The values of the column `status` of search_job_results.
pub data RowStatus : Type 0 where
  pending claimed complete failed dead_letter : RowStatus

pub record SearchRequest (F : Type 0) : Type 0 where
  pub origin_lat : F
  pub origin_lng : F
  pub origin_r : F
  pub dest_lat : F
  pub dest_lng : F
  pub dest_r : F
  pub depart_from : Bytes
  pub depart_to : Bytes

pub record SearchJob (R : Type 0) : Type 0 where
  pub id : ℕ
  pub status : JobStatus
  pub submitted_at : ℕ
  pub completed_at : Option ℕ
  pub total_pairs : ℕ
  pub completed_pairs : ℕ
  pub failed_pairs : ℕ
  pub error_summary : Option Bytes
  pub request : R

pub record SearchJobResult : Type 0 where
  pub id : ℕ
  pub job_id : ℕ
  pub origin : Bytes
  pub destination : Bytes
  pub departure_date : Bytes
  pub status : RowStatus
  pub fare : Option Bytes
  pub error : Option Bytes
  pub completed_at : Option ℕ

abbrev pub max_pairs_per_job : ℕ
max_pairs_per_job = 5000

-- `status IN ('complete', 'failed')` of a job
unfoldable pub is_final : JobStatus → Bool
is_final complete = true
is_final failed = true
is_final _ = false

-- `status IN ('pending', 'running')` of a job
unfoldable pub is_active : JobStatus → Bool
is_active pending = true
is_active running = true
is_active _ = false

-- `status IN ('pending', 'claimed')` of a result
unfoldable pub is_open : RowStatus → Bool
is_open pending = true
is_open claimed = true
is_open _ = false

-- `status = 'pending'`
unfoldable pub is_pending : RowStatus → Bool
is_pending pending = true
is_pending _ = false

-- `status = 'dead_letter'`
unfoldable pub is_dead : RowStatus → Bool
is_dead dead_letter = true
is_dead _ = false

-- `status = 'failed'`
unfoldable pub is_failed : RowStatus → Bool
is_failed failed = true
is_failed _ = false

-- `status IN ('complete', 'failed', 'dead_letter')`
unfoldable pub is_done : RowStatus → Bool
is_done complete = true
is_done failed = true
is_done dead_letter = true
is_done _ = false
