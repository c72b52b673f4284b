-- ===== src/Jobs/Sound/Removal.antt =====
-- `DeleteJobsOlderThan` keeps the tables sound: the rows of a job go with it.
use flight_circle_search.Base.{
  ℕ, ◌≡◌, Bool, true, not, ◌&&◌, List, Memᴰ, arith, All-at, All-of, count, keep, mem-keep, nat_eq,
  ltb, leb, Bool-cases, inl, inr,
}
use flight_circle_search.Jobs.{SearchJob, SearchJobResult, is_open, is_done}
use flight_circle_search.Jobs.Store.{World}
use flight_circle_search.Jobs.Keeps.{Keeps, Keeps-call}
use flight_circle_search.Jobs.Repository.{has_id, of_job, of_job_in, delete_jobs_older_than}
use flight_circle_search.Jobs.Sound.{IsSound, IsSoundJob, is_row}
use flight_circle_search.Jobs.Sound.Counts.{
  of_job_in_job, count-keep-le, count-keep-not, count-keep_job, count-pos_of_mem,
}
use flight_circle_search.Jobs.Sound.Rows.{faults-IsSound}

module _ {R : Type 0} (limit cutoff : ℕ) (w : World R) (s : IsSound limit w) where
  abbrev is_old : SearchJob R → Bool
  is_old job = ltb job.submitted_at cutoff

  -- No job of this id is deleted.
  abbrev stays : ℕ → Bool
  stays id = leb (count (λ job. has_id id job && is_old job) w.jobs) 0

  abbrev kept_jobs : List (SearchJob R)
  kept_jobs = keep (λ job. not (is_old job)) w.jobs

  abbrev left_rows : List SearchJobResult
  left_rows = keep (λ r. stays r.job_id) w.results

  stays_of_kept : (job : SearchJob R) → Memᴰ job kept_jobs → stays job.id ≡ true
  stays_of_kept job m = ground (
    arith,
    count-keep-not (has_id job.id) is_old w.jobs,
    s.one_job job.id,
    count-pos_of_mem (has_id job.id) kept_jobs m (ground arith),
  )

  left_job :
      (job : SearchJob R)
      → stays job.id ≡ true
      → IsSoundJob limit w.results job
      → IsSoundJob limit left_rows job
  left_job job q j = record {
    counted = ground (
      arith,
      j.counted,
      q,
      count-keep_job (of_job job.id) stays job.id w.results (λ r h. ground arith),
    );
    bounded = j.bounded;
    progress = ground (
      arith,
      j.progress,
      q,
      count-keep_job (of_job_in job.id is_done) stays job.id w.results
          (of_job_in_job job.id is_done),
    );
    failures = j.failures;
    dated = j.dated;
    closed = λ e. omega (
      arith,
      j.closed e,
      count-keep-le (of_job_in job.id is_open) (λ r. stays r.job_id) w.results,
    );
  }

  removed-IsSound : IsSound limit (record w { jobs = kept_jobs; results = left_rows })
  removed-IsSound = record {
    one_job = λ id.
        omega (arith, s.one_job id, count-keep-le (has_id id) (λ job. not (is_old job)) w.jobs);
    one_row =
        λ n. omega (arith, s.one_row n, count-keep-le (is_row n) (λ r. stays r.job_id) w.results);
    numbered = λ n q.
        omega (arith, s.numbered n q, count-keep-le (is_row n) (λ r. stays r.job_id) w.results);
    owned = λ id q. elim (Bool-cases (stays id)) [
      | inl e ↦ omega (
        arith,
        s.owned id (ground (arith, e, q, count-keep-not (has_id id) is_old w.jobs)),
        count-keep-le (of_job id) (λ r. stays r.job_id) w.results,
      )
      | inr e ↦
          ground (arith, e, count-keep_job (of_job id) stays id w.results (λ r h. ground arith))
    ];
    each_job = All-of _ kept_jobs (λ job m.
        left_job job (stays_of_kept job m) (All-at _ w.jobs s.each_job (mem-keep _ w.jobs m).0));
  }

pub delete_jobs_older_than-IsSound :
    {R : Type 0} (limit cutoff : ℕ) → Keeps (IsSound {R = R} limit) (delete_jobs_older_than cutoff)
unfolding delete_jobs_older_than
delete_jobs_older_than-IsSound limit cutoff =
    Keeps-call (faults-IsSound limit) _ _ (λ w s. removed-IsSound limit cutoff w s)
