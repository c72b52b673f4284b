-- ===== src/Worker/Retention.antt =====
-- internal/worker/retention.go: the daily sweep of old jobs. Times are in nanoseconds; the worker's
-- clock is an argument.
use flight_circle_search.Base.{
  refl, ℕ, ◌+◌, ◌-◌, ◌≤◌, ◌≡◌, false, Option, none, some, List, [], ◌∷◌, ◌++◌, Memᴰ, mem_keep_of,
  Bytes, codes, Result, ok, err, ltb, arith,
}
use flight_circle_search.Jobs.{SearchJob}
use flight_circle_search.Jobs.Store.{World, RepoError, call}
use flight_circle_search.Jobs.Repository.{delete_jobs_older_than}
use flight_circle_search.Jobs.Service.{repo_text}

-- 30 days
abbrev pub retention_window : ℕ
retention_window = 2592000000000000

module _ {R : Type 0} where
  abbrev pub swept : Result RepoError ℕ × World R → Result Bytes (Unit {0}) × World R
  swept (err e, w) = (err (codes "retention cleanup: " ++ repo_text e), w)
  swept (ok deleted, w) = (ok tt, w)

  unfoldable pub retention_work : ℕ → World R → Result Bytes (Unit {0}) × World R
  retention_work now w = swept (delete_jobs_older_than (now - retention_window) w)

  swept_jobs :
      (p : Result RepoError ℕ × World R) (job : SearchJob R)
      → Memᴰ job p.1.jobs
      → Memᴰ job (swept p).1.jobs
  swept_jobs (err e, w) job m = m
  swept_jobs (ok n, w) job m = m

  deletion_keeps :
      (cutoff : ℕ) (job : SearchJob R) (faults : List (Option Bytes)) (w : World R)
      → w.faults ≡ faults
      → Memᴰ job w.jobs
      → ltb job.submitted_at cutoff ≡ false
      → Memᴰ job (delete_jobs_older_than cutoff w).1.jobs
  unfolding delete_jobs_older_than call
  deletion_keeps cutoff job [] w h m q = rw h (mem_keep_of _ w.jobs m (rw q))
  deletion_keeps cutoff job (none ∷ later) w h m q = rw h (mem_keep_of _ w.jobs m (rw q))
  deletion_keeps cutoff job (some text ∷ later) w h m q = rw h m

  -- The sweep, whether or not its statement succeeds, keeps every job that was submitted within the last 30 days.
  pub retention_work_keeps :
      (now : ℕ) (job : SearchJob R) (w : World R)
      → Memᴰ job w.jobs
      → now ≤ job.submitted_at + retention_window
      → Memᴰ job (retention_work now w).1.jobs
  unfolding retention_work
  retention_work_keeps now job w m h =
      swept_jobs (delete_jobs_older_than (now - retention_window) w) job
        (deletion_keeps (now - retention_window) job w.faults w refl m (ground arith))
