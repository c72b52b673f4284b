-- ===== src/Jobs/Repository.antt =====
-- internal/jobengine/repository.go: each method is an action on the store, with its SQL statements
-- read as functions of the tables. `UPDATE t SET f WHERE p` is `update p f`, a `COUNT(*)` is `count`,
-- and a text in front of an error is what the method wraps it with.
use flight_circle_search.Base.{
  ℕ, suc, ◌+◌, Bool, false, not, ◌&&◌, Option, none, some, List, [], ◌∷◌, ◌++◌, Bytes, codes,
  nat_eq, ◌==◌, ltb, leb, if◌then◌else◌, keep, count, length, Result, ok, err,
}
use flight_circle_search.Jobs.{
  JobStatus, RowStatus, SearchJob, SearchJobResult, is_final, is_active, is_open, is_pending,
  is_dead, is_failed, is_done,
}
use flight_circle_search.Jobs.Store.{
  World, RepoError, job_not_found, failure, Exec, call, fails, returns, ◌>>=◌, ◌>>◌,
}

unfoldable pub update {ℓ} : {A : Type ℓ} → (A → Bool) → (A → A) → List A → List A
update p f [] = []
update p f (x ∷ xs) = (if p x then f x else x) ∷ update p f xs

unfoldable pub find {ℓ} : {A : Type ℓ} → (A → Bool) → List A → Option A
find p [] = none
find p (x ∷ xs) = let rest = find p xs in if p x then some x else rest

-- `WHERE job_id = $1`
abbrev pub of_job : ℕ → SearchJobResult → Bool
of_job id r = r.job_id == id

-- `WHERE job_id = $1 AND` a test of the status
abbrev pub of_job_in : ℕ → (RowStatus → Bool) → SearchJobResult → Bool
of_job_in id test r = r.job_id == id && test r.status

-- `ids[i]` of a COPY: the rows are numbered by the sequence.
unfoldable pub copy_rows : ℕ → ℕ → List SearchJobResult → List SearchJobResult
copy_rows job_id n [] = []
copy_rows job_id n (p ∷ ps) =
    record {
      id = n;
      job_id = job_id;
      origin = p.origin;
      destination = p.destination;
      departure_date = p.departure_date;
      status = RowStatus.pending;
      fare = none;
      error = none;
      completed_at = none;
    }
    ∷ copy_rows job_id (suc n) ps

-- The subquery that picks the row to claim, and the update of that row.
unfoldable pub claim_first :
    ℕ → ℕ → List SearchJobResult → Option SearchJobResult × List SearchJobResult
claim_first job_id now [] = (none, [])
claim_first job_id now (r ∷ rs) =
    let (found, rest) = claim_first job_id now rs in
    let claimed = record r { status = RowStatus.claimed; completed_at = some now } in
    if of_job_in job_id is_pending r then (some claimed, claimed ∷ rs) else (found, r ∷ rest)

-- `if len(fare) > 0`
abbrev pub fare_arg : Bytes → Option Bytes
fare_arg [] = none
fare_arg (b ∷ bs) = some (b ∷ bs)

module _ {R : Type 0} where
  abbrev pub has_id : ℕ → SearchJob R → Bool
  has_id id job = job.id == id

  -- A read of the store by one query.
  abbrev pub query : {A : Type 0} → Bytes → (World R → A) → Exec R A
  query context f = call context (λ w. (f w, w))

  abbrev pub statement : Bytes → (World R → World R) → Exec R (Unit {0})
  statement context f = call context (λ w. (tt, f w))

  module _ {A : Type 0} where
    abbrev pub rolled_back : World R → Result RepoError A × World R → Result RepoError A × World R
    rolled_back w (ok a, w') = (ok a, w')
    rolled_back w (err e, w') = (err e, record w' { jobs = w.jobs; results = w.results })

    -- `Begin`, the body, `Commit`, and the deferred `Rollback`, which undoes the writes of a body that failed.
    unfoldable pub in_transaction : Exec R A → Exec R A
    in_transaction body w = rolled_back w (
        (do
          statement (codes "begin tx: ") (λ v. v)
          a ← body
          statement (codes "commit: ") (λ v. v)
          returns a)
          w)

  unfoldable pub insert_job : ℕ → SearchJob R → Exec R (Unit {0})
  insert_job id job w =
      let row : SearchJob R = record {
        id = id;
        status = JobStatus.pending;
        submitted_at = w.clock;
        completed_at = none;
        total_pairs = job.total_pairs;
        completed_pairs = 0;
        failed_pairs = 0;
        error_summary = none;
        request = job.request;
      } in
      if ltb 0 (count (has_id id) w.jobs)
      then fails (failure (codes "insert job: duplicate key")) w
      else statement (codes "insert job: ") (λ v. record v { jobs = v.jobs ++ row ∷ [] }) w

  unfoldable pub insert_results : ℕ → List SearchJobResult → Exec R (Unit {0})
  unfolding copy_rows
  insert_results id pairs =
      if ltb 0 (length pairs)
      then statement (codes "copy result rows: ") (λ v. record v {
        results = v.results ++ copy_rows id v.next_id pairs;
        next_id = v.next_id + length pairs;
      })
      else returns tt

  -- `fresh` is what `uuid.New()` returns.
  unfoldable pub create_job : ℕ → SearchJob R → List SearchJobResult → Exec R ℕ
  create_job fresh job pairs =
      let id = if job.id == 0 then fresh else job.id in
      in_transaction (do insert_job id job; insert_results id pairs; returns id)

  abbrev pub found_job : Option (SearchJob R) → Exec R (SearchJob R)
  found_job none = fails job_not_found
  found_job (some job) = returns job

  unfoldable pub get_job : ℕ → Exec R (SearchJob R)
  unfolding find
  get_job id = do row ← query (codes "select job: ") (λ w. find (has_id id) w.jobs); found_job row

  unfoldable pub get_pending_results : ℕ → Exec R (List SearchJobResult)
  get_pending_results job_id =
      query (codes "query pending results: ") (λ w. keep (of_job_in job_id is_pending) w.results)

  unfoldable pub list_results : ℕ → Exec R (List SearchJobResult)
  list_results job_id = query (codes "query results: ") (λ w. keep (of_job job_id) w.results)

  unfoldable pub claim_next_result : ℕ → Exec R (Option SearchJobResult)
  claim_next_result job_id = call (codes "claim: ") (λ w.
      let (found, rows) = claim_first job_id w.clock w.results in
      (found, record w { results = rows }))

  unfoldable pub update_result : ℕ → RowStatus → Bytes → Option Bytes → Exec R (Unit {0})
  update_result id status fare msg = statement (codes "update result: ") (λ w. record w {
    results =
        update (λ r. r.id == id)
          (λ r. record r {
            status = status;
            fare = fare_arg fare;
            error = msg;
            completed_at = some w.clock;
          })
          w.results;
  })

  unfoldable pub mark_result_dead_letter : ℕ → Bytes → Exec R (Unit {0})
  mark_result_dead_letter id msg = statement (codes "mark dead-letter: ") (λ w. record w {
    results =
        update (λ r. r.id == id)
          (λ r. record r {
            status = RowStatus.dead_letter;
            error = some msg;
            completed_at = some w.clock;
          })
          w.results;
  })

  -- The statement of `UpdateJobProgress`.
  unfoldable pub recount : ℕ → World R → World R
  recount id w =
      let done = count (of_job_in id is_done) w.results in
      let dead = count (of_job_in id is_dead) w.results in
      let failed = count (of_job_in id is_failed) w.results in
      record w {
        jobs =
            update (has_id id)
              (λ job. record job { completed_pairs = done; failed_pairs = dead + failed }) w.jobs;
      }

  unfoldable pub update_job_progress : ℕ → Exec R (Unit {0})
  update_job_progress id = statement (codes "update progress: ") (recount id)

  -- `WHERE id = $2 AND status IN ('pending', 'running')`
  abbrev pub unfinished : ℕ → SearchJob R → Bool
  unfinished id job = has_id id job && is_active job.status

  -- The last statement of `MarkJobCompleteIfDone`.
  unfoldable pub close : ℕ → JobStatus → World R → World R
  close id final w = record w {
    jobs =
        update (unfinished id) (λ job. record job { status = final; completed_at = some w.clock })
          w.jobs;
  }

  unfoldable pub finalize : ℕ → JobStatus → Exec R Bool
  finalize id final = do
    affected ←
        call (codes "mark complete: ") (λ w. (count (unfinished id) w.jobs, close id final w))
    returns (ltb 0 affected)

  abbrev pub finish : ℕ → Option (SearchJob R) → Exec R Bool
  finish id none = fails (failure (codes "read job: no rows in result set"))
  finish id (some job) =
      if ltb (job.completed_pairs + job.failed_pairs) job.total_pairs
      then returns false
      else finalize id
          (if job.failed_pairs == job.total_pairs then JobStatus.failed else JobStatus.complete)

  unfoldable pub mark_job_complete_if_done : ℕ → Exec R Bool
  mark_job_complete_if_done id = do
    remaining ← query (codes "count remaining: ") (λ w. count (of_job_in id is_open) w.results)
    if ltb 0 remaining
        then returns false
        else do row ← query (codes "read job: ") (λ w. find (has_id id) w.jobs); finish id row

  unfoldable pub mark_job_status : ℕ → JobStatus → Option Bytes → Exec R (Unit {0})
  mark_job_status id status summary = statement (codes "mark status: ") (λ w. record w {
    jobs =
        update (has_id id)
          (λ job. record job {
            status = status;
            error_summary = summary;
            completed_at = if is_final status then some w.clock else none;
          })
          w.jobs;
  })

  unfoldable pub delete_jobs_older_than : ℕ → Exec R ℕ
  delete_jobs_older_than cutoff = call (codes "delete old jobs: ") (λ w.
      let old = λ (job : SearchJob R). ltb job.submitted_at cutoff in
      (
        count old w.jobs,
        record w {
          jobs = keep (λ job. not (old job)) w.jobs;
          results =
              keep (λ r. leb (count (λ job. has_id r.job_id job && old job) w.jobs) 0) w.results;
        },
      ))
