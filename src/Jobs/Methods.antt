-- ===== src/Jobs/Methods.antt =====
-- The methods of internal/jobengine/repository.go that write, as an interface: a property of stores
-- that each of them keeps is kept by whatever calls only them, in any order and with any failures.
use flight_circle_search.Base.{
  [], ◌++◌, arith, nat_eq, ◌==◌, ℕ, ◌≤◌, ◌≢◌, List, Bytes, Option, none, some, Result, ok, err,
  length, ltb, if◌then◌else◌, Bool-cases, inl, inr,
}
use flight_circle_search.Floats.{Floats}
use flight_circle_search.Jobs.{JobStatus, RowStatus, SearchJobResult, SearchRequest}
use flight_circle_search.Jobs.Store.{World, RepoError, SearchJobArgs}
use flight_circle_search.Jobs.Keeps.{Keeps, Keeps-call}
use flight_circle_search.Jobs.Repository.{
  create_job, get_pending_results, claim_next_result, update_result, mark_result_dead_letter,
  update_job_progress, mark_job_complete_if_done, mark_job_status, delete_jobs_older_than,
}
use flight_circle_search.Jobs.Service.{
  SubmitError, too_many_pairs, Service, AirportSource, Submission, GeneratedPair, generate_tuples,
  new_job, to_results, to_args, enqueue_batch, mark_failed_best_effort, start_running,
  enqueue_results, fetch_and_enqueue, persist, submit,
}
use flight_circle_search.Jobs.Submit.{length-to_results}

module _ {R : Type 0} (P : World R → Type 0) where
  -- The writes of the handlers, and the queue, the clock and the failures ahead, which they do not share.
  pub record HandlersKeep : Type 0 where
    pub elsewhere :
        (w : World R) (queue : List SearchJobArgs) (clock : ℕ) (faults : List (Option Bytes))
        → P w
        → P (record w { queue = queue; clock = clock; faults = faults })
    pub updates : (n : ℕ) (fare : Bytes) → Keeps P (update_result n RowStatus.complete fare none)
    pub buries : (n : ℕ) (reason : Bytes) → Keeps P (mark_result_dead_letter n reason)
    pub recounts : (id : ℕ) → Keeps P (update_job_progress id)
    pub finishes : (id : ℕ) → Keeps P (mark_job_complete_if_done id)

  -- All writes: those of the handlers, of submissions of at most `limit` pairs, of claims and of sweeps.
  pub record MethodsKeep (limit : ℕ) : Type 0 where
    pub handlers : HandlersKeep
    pub creates :
        (fresh : ℕ) (req : R) (pairs : List SearchJobResult)
        → length pairs ≤ limit
        → Keeps P (create_job fresh (new_job req (length pairs)) pairs)
    pub marks :
        (id : ℕ) (status : JobStatus) (summary : Option Bytes)
        → status ≢ JobStatus.complete
        → Keeps P (mark_job_status id status summary)
    pub claims : (id : ℕ) → Keeps P (claim_next_result id)
    pub deletes : (cutoff : ℕ) → Keeps P (delete_jobs_older_than cutoff)

module _ {R : Type 0} (P : World R → Type 0) where
  -- Both ways on from a method's result.
  either_way :
      {A : Type 0} (r : Result RepoError A) (bad : RepoError → Submission × World R)
      (good : A → Submission × World R)
      → ((e : RepoError) → P (bad e).1)
      → ((a : A) → P (good a).1)
      → P (elim r as (λ _. Submission × World R) [ err e ↦ bad e | ok a ↦ good a ]).1
  either_way (ok a) bad good h k = k a
  either_way (err e) bad good h k = h e

module _ {R : Type 0} {P : World R → Type 0} {limit : ℕ} (k : MethodsKeep P limit) where
  calm : (w : World R) (faults : List (Option Bytes)) → P w → P (record w { faults = faults })
  calm w faults h = k.handlers.elsewhere w w.queue w.clock faults h

  mark_failed_keeps :
      (id : ℕ) (cause : Bytes) (w : World R) → P w → P (mark_failed_best_effort id cause w)
  unfolding mark_failed_best_effort
  mark_failed_keeps id cause w h = (k.marks id JobStatus.failed (some cause) cc).at w h

  start_keeps : (id total : ℕ) (w : World R) → P w → P (start_running id total w).1
  unfolding start_running
  start_keeps id total w h =
      let v = (k.marks id JobStatus.running none cc).at w h in
      either_way P (mark_job_status id JobStatus.running none w).0 _ _ (λ e. v) (λ a. v)

  enqueue_batch_keeps : (rows : List SearchJobResult) → Keeps P (enqueue_batch rows)
  unfolding enqueue_batch
  enqueue_batch_keeps rows = record {
    at = λ w h. elim (Bool-cases (length rows == 0)) [
      | inl q ↦ rw q h
      | inr q ↦ rw q (
          (Keeps-call {P = P} calm [] _
              (λ v j. k.handlers.elsewhere v (v.queue ++ to_args rows) v.clock v.faults j)).at
            w h)
    ];
  }

  enqueue_keeps :
      (id total : ℕ) (rows : List SearchJobResult) (w : World R)
      → P w
      → P (enqueue_results id total rows w).1
  unfolding enqueue_results
  enqueue_keeps id total rows w h =
      let v = (enqueue_batch_keeps rows).at w h in
      either_way P (enqueue_batch rows w).0 _ _ (λ e. mark_failed_keeps id _ _ v)
        (λ a. start_keeps id total _ v)

  fetch_keeps : (id total : ℕ) (w : World R) → P w → P (fetch_and_enqueue id total w).1
  unfolding fetch_and_enqueue get_pending_results
  fetch_keeps id total w h =
      let v = (Keeps-call {P = P} calm _ _ (λ u j. j)).at w h in
      either_way P (get_pending_results id w).0 _ _ (λ e. mark_failed_keeps id _ _ v)
        (λ rows. enqueue_keeps id total rows _ v)

  persist_keeps :
      (fresh : ℕ) (req : R) (pairs : List GeneratedPair) (w : World R)
      → length pairs ≤ limit
      → P w
      → P (persist fresh req pairs w).1
  unfolding persist
  persist_keeps fresh req pairs w room h =
      let rows = to_results pairs in
      let v =
        (k.creates fresh req rows (omega (arith, length-to_results fresh req pairs))).at w h in
      either_way P (create_job fresh (new_job req (length rows)) rows w).0 _ _ (λ e. v)
        (λ id. fetch_keeps id (length rows) _ v)

pub submit_keeps :
    (fl : Floats) (s : Service) {P : World (SearchRequest fl.Float) → Type 0}
    → MethodsKeep P s.max_pairs
    → (source : AirportSource fl.Float) (fresh : ℕ) (req : SearchRequest fl.Float)
      (w : World (SearchRequest fl.Float))
    → P w
    → P (submit fl s source fresh req w).1
unfolding submit
submit_keeps fl s {P} k source fresh req w h = go (generate_tuples fl source s.hubs req)
  where
    go :
        (g : Result SubmitError (List GeneratedPair))
        → P
            (elim g as (λ _. Submission × World (SearchRequest fl.Float)) [
              | err e ↦ (record { id = 0; total = 0; error = some e }, w)
              | ok pairs ↦
                  if ltb s.max_pairs (length pairs)
                  then (
                    record {
                      id = 0;
                      total = length pairs;
                      error = some (too_many_pairs (length pairs));
                    },
                    w,
                  )
                  else persist fresh req pairs w
            ]).1
    go (err e) = h
    go (ok pairs) = elim (Bool-cases (ltb s.max_pairs (length pairs))) [
      | inl q ↦ rw q h
      | inr q ↦ rw q (persist_keeps k fresh req pairs w (ground arith) h)
    ]
