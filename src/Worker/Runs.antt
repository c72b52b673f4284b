-- ===== src/Worker/Runs.antt =====
-- The system at work: the methods of internal/jobengine/repository.go in any order, with any failures,
-- as submissions, handlers and sweeps that run side by side call them. A method is one step, so that
-- the steps of two callers may alternate.
use flight_circle_search.Base.{
  refl, ok, count, arith, ℕ, ◌≤◌, ◌≢◌, List, Bytes, Option, none, length, ◌≡◌, [],
}
use flight_circle_search.Floats.{Floats}
use flight_circle_search.Jobs.{JobStatus, RowStatus, SearchJobResult, SearchRequest, SearchJob}
use flight_circle_search.Jobs.Store.{World, SearchJobArgs}
use flight_circle_search.Jobs.Repository.{
  get_job, list_results, create_job, claim_next_result, update_result, mark_result_dead_letter,
  update_job_progress, mark_job_complete_if_done, mark_job_status, delete_jobs_older_than,
}
use flight_circle_search.Jobs.Service.{Service, AirportSource, new_job, submit}
use flight_circle_search.Jobs.Methods.{MethodsKeep, submit_keeps}
use flight_circle_search.Jobs.Sound.{IsSound}
use flight_circle_search.Jobs.Sound.Reports.{reported_bounds}
use flight_circle_search.Jobs.Sound.Kept.{methods-IsSound}
use flight_circle_search.Worker.Turns.{Reach}
use flight_circle_search.Worker.Retention.{retention_work}
use flight_circle_search.Worker.Kept.{Reach_keeps, retention_work_keeps_all}

module _ {R : Type 0} (limit : ℕ) where
  -- One call of a method, or a change of the queue, of the clock and of the failures ahead.
  pub data Method (w : World R) : World R → Type 0 where
    elsewhere :
        (queue : List SearchJobArgs) (clock : ℕ) (faults : List (Option Bytes))
        → Method w (record w { queue = queue; clock = clock; faults = faults })
    creates :
        (fresh : ℕ) (req : R) (pairs : List SearchJobResult)
        → length pairs ≤ limit
        → Method w (create_job fresh (new_job req (length pairs)) pairs w).1
    marks :
        (id : ℕ) (status : JobStatus) (summary : Option Bytes)
        → status ≢ JobStatus.complete
        → Method w (mark_job_status id status summary w).1
    updates : (n : ℕ) (fare : Bytes) → Method w (update_result n RowStatus.complete fare none w).1
    buries : (n : ℕ) (reason : Bytes) → Method w (mark_result_dead_letter n reason w).1
    recounts : (id : ℕ) → Method w (update_job_progress id w).1
    finishes : (id : ℕ) → Method w (mark_job_complete_if_done id w).1
    claims : (id : ℕ) → Method w (claim_next_result id w).1
    deletes : (cutoff : ℕ) → Method w (delete_jobs_older_than cutoff w).1

  pub data Run (w : World R) : World R → Type 0 where
    begin : Run w w
    step : {v u : World R} → Run w v → Method v u → Run w u

  methods-IsRun : (w : World R) → MethodsKeep (Run w) limit
  methods-IsRun w = record {
    handlers = record {
      elsewhere = λ v queue clock faults r. step r (elsewhere queue clock faults);
      updates = λ n fare. record { at = λ v r. step r (updates n fare) };
      buries = λ n reason. record { at = λ v r. step r (buries n reason) };
      recounts = λ id. record { at = λ v r. step r (recounts id) };
      finishes = λ id. record { at = λ v r. step r (finishes id) };
    };
    creates = λ fresh req pairs room. record { at = λ v r. step r (creates fresh req pairs room) };
    marks = λ id status summary ne. record { at = λ v r. step r (marks id status summary ne) };
    claims = λ id. record { at = λ v r. step r (claims id) };
    deletes = λ cutoff. record { at = λ v r. step r (deletes cutoff) };
  }

  module _ {P : World R → Type 0} (k : MethodsKeep P limit) where
    Method_keeps : {w w' : World R} → Method w w' → P w → P w'
    Method_keeps {w} (elsewhere queue clock faults) h = k.handlers.elsewhere w queue clock faults h
    Method_keeps (creates fresh req pairs room) h = (k.creates fresh req pairs room).at _ h
    Method_keeps (marks id status summary ne) h = (k.marks id status summary ne).at _ h
    Method_keeps (updates n fare) h = (k.handlers.updates n fare).at _ h
    Method_keeps (buries n reason) h = (k.handlers.buries n reason).at _ h
    Method_keeps (recounts id) h = (k.handlers.recounts id).at _ h
    Method_keeps (finishes id) h = (k.handlers.finishes id).at _ h
    Method_keeps (claims id) h = (k.claims id).at _ h
    Method_keeps (deletes cutoff) h = (k.deletes cutoff).at _ h

    pub Run_keeps : {w w' : World R} → Run w w' → P w → P w'
    Run_keeps begin h = h
    Run_keeps (step r m) h = Method_keeps m (Run_keeps r h)

  -- Whatever methods are called, in any order and with any failures of the database, the tables stay sound: `CreateJob` with as many pairs as the job says and at most `limit`, `MarkJobStatus` with a status other than complete, `UpdateResult` with the status complete, and the other methods with any arguments. That is, ids stay distinct, no row loses its job, every job counts its rows and no more than `limit`, its counters do not exceed what is done, it has a time of completion exactly if it is finished, and a complete job has no open row.
  pub Run-IsSound : {w w' : World R} → Run w w' → IsSound limit w → IsSound limit w'
  Run-IsSound r s = Run_keeps (methods-IsSound limit) r s

  pub empty-IsSound : (w : World R) → w.jobs ≡ [] → w.results ≡ [] → IsSound limit w
  unfolding count
  empty-IsSound w h k = record {
    one_job = λ id. rw h (omega arith);
    one_row = λ n. rw k (omega arith);
    numbered = λ n q. rw k refl;
    owned = λ id q. rw k refl;
    each_job = rw h tt;
  }

  -- From empty tables, and after any run of the methods, with any failures: if `GetJob` reports a job and `ListResults` after it reports the job's rows, then the job's failed pairs are no more than its completed pairs, these no more than its total, and the total is the number of the rows that are listed, at most the limit of the service.
  pub reported_counts :
      {w v : World R} (id : ℕ) (u x : World R) (job : SearchJob R) (rows : List SearchJobResult)
      → w.jobs ≡ []
      → w.results ≡ []
      → Run w v
      → get_job id v ≡ (ok job, u)
      → list_results id u ≡ (ok rows, x)
      → (job.failed_pairs ≤ job.completed_pairs)
        × (job.completed_pairs ≤ job.total_pairs)
        × (job.total_pairs ≡ length rows)
        × (length rows ≤ limit)
  reported_counts {w} {v} id u x job rows a b r h k =
      reported_bounds limit id v u x job rows (Run-IsSound r (empty-IsSound w a b)) h k

-- A submission, any turns of the handlers, and a sweep are runs of the methods, whatever fails on the way; so what every method keeps, the program keeps.
pub program-IsRun :
    (fl : Floats) (s : Service) {Fare : Type 0} (encode : List Fare → Option Bytes)
    (w : World (SearchRequest fl.Float))
    → ((source : AirportSource fl.Float) (fresh : ℕ) (req : SearchRequest fl.Float)
        → Run s.max_pairs w (submit fl s source fresh req w).1)
      × ((w' : World (SearchRequest fl.Float)) → Reach encode w w' → Run s.max_pairs w w')
      × ((now : ℕ) → Run s.max_pairs w (retention_work now w).1)
program-IsRun fl s encode w = (
  λ source fresh req. submit_keeps fl s (methods-IsRun s.max_pairs w) source fresh req w begin,
  λ w' r. Reach_keeps (methods-IsRun s.max_pairs w).handlers encode r begin,
  λ now. retention_work_keeps_all (methods-IsRun s.max_pairs w) now w begin,
)
