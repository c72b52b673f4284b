-- ===== src/Worker/Stuck.antt =====
-- Jobs that no handler finishes.
use flight_circle_search.Base.{
  true, false, Result, ◌≤◌, ◌++◌, ◌∷◌, ℕ, ◌≡◌, refl, sym, ◌∙◌, ap, subst, ◌≢◌, Option, none, some,
  List, [], append-nil, nat_beq_refl, ok, arith, All, count,
}
use flight_circle_search.Floats.{Floats}
use flight_circle_search.Jobs.{is_active, JobStatus, SearchJob, SearchRequest, is_final}
use flight_circle_search.Jobs.Store.{World, SearchJobArgs, call}
use flight_circle_search.Jobs.Repository.{copy_rows, find, has_id, of_job, mark_job_status}
use flight_circle_search.Jobs.Tables.{find-update, find_satisfies, find-none_of_count, find-append}
use flight_circle_search.Jobs.Service.{
  Service, AirportSource, generate_tuples, submit, to_results, to_args,
}
use flight_circle_search.Jobs.Submit.{submit_steps, fresh_job}
use flight_circle_search.Fares.{FareError}
use flight_circle_search.Worker.{Wait, WorkError, retry, work}
use flight_circle_search.Worker.Outcomes.{pending_outcome, work_undecided}
use flight_circle_search.Worker.Turns.{after_turn, left_over, Reach, Reach-IsIdle}

-- A job as `MarkJobStatus(running)` leaves it.
abbrev pub reopened : {R : Type 0} → SearchJob R → SearchJob R
reopened job = record job { status = JobStatus.running; error_summary = none; completed_at = none }

none_left : (a : SearchJobArgs) (e : WorkError) → a.attempts ≤ 1 → left_over a (retry e) ≡ []
unfolding left_over
none_left a e h = ground arith

module _ {R Fare : Type 0} (encode : List Fare → Option (List ℕ)) where
  queue_kept :
      (id : ℕ) (w : World R)
      → w.faults ≡ []
      → (mark_job_status id JobStatus.running none w).1.queue ≡ w.queue
  unfolding mark_job_status call
  queue_kept id w h = ground arith

  set_running :
      (id : ℕ) (w : World R) (job : SearchJob R)
      → w.faults ≡ []
      → find (has_id id) w.jobs ≡ some job
      → find (has_id id) (mark_job_status id JobStatus.running none w).1.jobs ≡ some (reopened job)
  unfolding mark_job_status call is_final
  set_running id w job h e = rw h (
      find-update (has_id id) (has_id id) _ w.jobs (λ x. refl)
      ∙ ground (arith, e, find_satisfies (has_id id) w.jobs job e))

  -- `Submit` marks its job as running after the searches were queued. If by then, on a store that answers, the handlers have taken every search of the stored job off the queue, whether or not one of them has finished the job, the job is running again, with no time of completion, and stays so whatever the handlers do later.
  pub mark_running_late :
      (id : ℕ) (job : SearchJob R) (w : World R) {w' : World R}
      → w.faults ≡ []
      → find (has_id id) w.jobs ≡ some job
      → All (λ (a : SearchJobArgs). a.job_id ≢ id) w.queue
      → Reach encode (mark_job_status id JobStatus.running none w).1 w'
      → find (has_id id) w'.jobs ≡ some (reopened job)
  mark_running_late id job w h e free r =
      (Reach-IsIdle encode id (some (reopened job)) r (record {
        row_is = set_running id w job h e;
        unqueued = subst (All _) (sym (queue_kept id w h)) free;
      })).row_is

  -- A search whose last attempt ends with an error for which it should be tried again, be it that the provider is busy or down, that the limiter has failed or that the fares cannot be encoded, is not queued again. If it was the only queued search of an unfinished job, no handler ever changes the job afterwards: it is never finished.
  pub search_given_up :
      (front back : List SearchJobArgs) (a : SearchJobArgs) (wait : Wait)
      (answer : Result FareError (List Fare)) (e : WorkError) (job : SearchJob R) (w : World R)
      {w' : World R}
      → w.queue ≡ front ++ a ∷ back
      → All (λ (b : SearchJobArgs). b.job_id ≢ a.job_id) (front ++ back)
      → a.attempts ≤ 1
      → pending_outcome encode wait answer ≡ some (retry e)
      → find (has_id a.job_id) w.jobs ≡ some job
      → is_active job.status ≡ true
      → Reach encode (after_turn front back a (work encode wait answer a w)) w'
      → (find (has_id a.job_id) w'.jobs ≡ some job) × (is_final job.status ≡ false)
  unfolding is_active is_final
  search_given_up front back a wait answer e job w {w'} q alone last o h unfinished r =
      let undecided = work_undecided encode wait answer a w (retry e) o in
      (
        (Reach-IsIdle encode a.job_id (some job)
            (subst (λ p. Reach encode (after_turn front back a p) w') undecided r)
            (record { row_is = h; unqueued = rw (none_left a e last) alone })).row_is,
        ground (arith, unfinished),
      )

module _ {Fare : Type 0} (fl : Floats) (encode : List Fare → Option (List ℕ)) where
  open fl use {Float}

  -- On a store that answers, and for a UUID that no job, result or queued search has, a request that matches no pair is stored as a running job of no pairs, and no handler ever changes this job.
  pub submit_empty_never_ends :
      (s : Service) (source : AirportSource Float) (fresh : ℕ) (req : SearchRequest Float)
      (w : World (SearchRequest Float)) {w' : World (SearchRequest Float)}
      → generate_tuples fl source s.hubs req ≡ ok []
      → w.faults ≡ []
      → count (has_id fresh) w.jobs ≡ 0
      → count (of_job fresh) w.results ≡ 0
      → All (λ (a : SearchJobArgs). a.job_id ≢ fresh) w.queue
      → Reach encode (submit fl s source fresh req w).1 w'
      → find (has_id fresh) w'.jobs ≡ some (reopened (fresh_job fresh req 0 w.clock))
  unfolding to_results to_args copy_rows
  submit_empty_never_ends s source fresh req w {w'} g h c d free r =
      let done = submit_steps fl s source fresh req [] w g (omega arith) h c d in
      (Reach-IsIdle encode fresh (some (reopened (fresh_job fresh req 0 w.clock)))
        (subst (λ x. Reach encode x w') (ap (λ x. x.1) done) r)
        (record {
          row_is =
              find-update (has_id fresh) (has_id fresh) _ _ (λ x. refl)
              ∙ rw
                  (find-append (has_id fresh) w.jobs (fresh_job fresh req 0 w.clock)
                    (find-none_of_count _ w.jobs c) (nat_beq_refl fresh))
                  rw (nat_beq_refl fresh);
          unqueued = subst (All _) (sym (append-nil w.queue)) free;
        })).row_is
