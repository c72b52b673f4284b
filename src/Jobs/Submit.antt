-- ===== src/Jobs/Submit.antt =====
-- What a submission leaves in the store.
pub mod Described
use flight_circle_search.Base.{
  ℕ, suc, ◌+◌, ◌≤◌, ◌<◌, ◌≡◌, refl, ◌∙◌, ap, none, some, List, [], ◌∷◌, ◌++◌, append-nil, ok, err,
  arith, count, keep, length, nat_eq,
}
use flight_circle_search.Floats.{Floats}
use flight_circle_search.Jobs.{
  JobStatus, SearchJob, SearchJobResult, SearchRequest, is_pending, is_final,
}
use flight_circle_search.Jobs.Store.{World, call, returns, fails}
use flight_circle_search.Jobs.Repository.{
  has_id, of_job, of_job_in, copy_rows, update, create_job, insert_job, insert_results,
  in_transaction, get_pending_results, mark_job_status,
}
use flight_circle_search.Jobs.Tables.{keep-append_of_none, keep-copy_rows}
use flight_circle_search.Jobs.Service.{
  GeneratedPair, SubmitError, Service, AirportSource, generate_tuples, to_results, to_args,
  enqueue_batch, start_running, enqueue_results, fetch_and_enqueue, new_job, persist, submit,
  too_many_pairs,
}

module _ {R : Type 0} (fresh : ℕ) (req : R) where
  -- The row that is inserted for the job.
  abbrev pub fresh_job : ℕ → ℕ → SearchJob R
  fresh_job total now = record (new_job req total) { id = fresh; submitted_at = now }

  abbrev pub created : List SearchJobResult → World R → World R
  created pairs w = record w {
    jobs = w.jobs ++ fresh_job (length pairs) w.clock ∷ [];
    results = w.results ++ copy_rows fresh w.next_id pairs;
    next_id = w.next_id + length pairs;
  }

  create_job_lem :
      (pairs : List SearchJobResult) (w : World R)
      → w.faults ≡ []
      → count (has_id fresh) w.jobs ≡ 0
      → create_job fresh (new_job req (length pairs)) pairs w ≡ (ok fresh, created pairs w)
  unfolding create_job insert_job insert_results in_transaction call returns fails copy_rows
  create_job_lem [] w h c = ground (arith, append-nil w.results)
  create_job_lem (p ∷ ps) w h c = ground arith

  -- The store after a submission in which no call failed.
  abbrev pub submitted : List GeneratedPair → World R → World R
  submitted pairs w =
      let rows = copy_rows fresh w.next_id (to_results pairs) in
      let v = created (to_results pairs) w in
      record v {
        jobs =
            update (has_id fresh)
              (λ job. record job {
                status = JobStatus.running;
                error_summary = none;
                completed_at = none;
              })
              v.jobs;
        queue = w.queue ++ to_args rows;
      }

  pending_of_created :
      (pairs : List SearchJobResult) (w : World R)
      → count (of_job fresh) w.results ≡ 0
      → keep (of_job_in fresh is_pending) (created pairs w).results
        ≡ copy_rows fresh w.next_id pairs
  pending_of_created pairs w c =
      keep-append_of_none (of_job_in fresh is_pending) (of_job fresh) w.results _ c (λ r q. rw q)
      ∙ keep-copy_rows fresh w.next_id pairs

  pub length-to_results : (pairs : List GeneratedPair) → length (to_results pairs) ≡ length pairs
  unfolding to_results
  length-to_results [] = refl
  length-to_results (p ∷ pairs) = ap suc (length-to_results pairs)

  fetch_step :
      (total : ℕ) (v : World R)
      → v.faults ≡ []
      → fetch_and_enqueue fresh total v
        ≡ enqueue_results fresh total (keep (of_job_in fresh is_pending) v.results) v
  unfolding fetch_and_enqueue get_pending_results call
  fetch_step total v h = ground arith

  enqueue_step :
      (total : ℕ) (rows : List SearchJobResult) (v : World R)
      → v.faults ≡ []
      → enqueue_results fresh total rows v
        ≡ start_running fresh total (record v { queue = v.queue ++ to_args rows })
  unfolding enqueue_results enqueue_batch to_args call
  enqueue_step total [] v h = ground (arith, append-nil v.queue)
  enqueue_step total (r ∷ rows) v h = ground arith

  start_step :
      (total : ℕ) (v : World R)
      → v.faults ≡ []
      → start_running fresh total v ≡ (
        record { id = fresh; total = total; error = none },
        record v {
          jobs =
              update
                (has_id fresh)
                (λ job. record job {
                  status = JobStatus.running;
                  error_summary = none;
                  completed_at = none;
                })
                v.jobs;
        },
      )
  unfolding start_running mark_job_status call is_final
  start_step total v h = ground arith

  after_created :
      (pairs : List GeneratedPair) (total : ℕ) (w : World R)
      → w.faults ≡ []
      → count (of_job fresh) w.results ≡ 0
      → fetch_and_enqueue fresh total (created (to_results pairs) w)
        ≡ (record { id = fresh; total = total; error = none }, submitted pairs w)
  after_created pairs total w h c =
      let v = created (to_results pairs) w in
      fetch_step total v h
      ∙ ap (λ rows. enqueue_results fresh total rows v) (pending_of_created (to_results pairs) w c)
      ∙ enqueue_step total (copy_rows fresh w.next_id (to_results pairs)) v h
      ∙ start_step total _ h

  persist_lem :
      (pairs : List GeneratedPair) (w : World R)
      → w.faults ≡ []
      → count (has_id fresh) w.jobs ≡ 0
      → count (of_job fresh) w.results ≡ 0
      → persist fresh req pairs w
        ≡ (record { id = fresh; total = length pairs; error = none }, submitted pairs w)
  unfolding persist
  persist_lem pairs w h c d =
      rw (persist, create_job_lem (to_results pairs) w h c)
        (rw (create_job_lem (to_results pairs) w h c) (
          after_created pairs (length (to_results pairs)) w h d
          ∙ ap (λ n. (record { id = fresh; total = n; error = none }, submitted pairs w))
              (length-to_results pairs)))

module _ (fl : Floats) where
  open fl use {Float}

  -- The store after a submission, in the terms of the code.
  pub submit_steps :
      (s : Service) (source : AirportSource Float) (fresh : ℕ) (req : SearchRequest Float)
      (pairs : List GeneratedPair) (w : World (SearchRequest Float))
      → generate_tuples fl source s.hubs req ≡ ok pairs
      → length pairs ≤ s.max_pairs
      → w.faults ≡ []
      → count (has_id fresh) w.jobs ≡ 0
      → count (of_job fresh) w.results ≡ 0
      → submit fl s source fresh req w
        ≡ (record { id = fresh; total = length pairs; error = none }, submitted fresh req pairs w)
  unfolding submit
  submit_steps s source fresh req pairs w g room h c d =
      ground (arith, persist_lem fresh req pairs w h c d)

  -- A request whose pairs cannot be generated is refused before anything is written: the store is as it was, no job id is returned, and the error is that of the generation.
  pub submit_refused :
      (s : Service) (source : AirportSource Float) (fresh : ℕ) (req : SearchRequest Float)
      (e : SubmitError) (w : World (SearchRequest Float))
      → generate_tuples fl source s.hubs req ≡ err e
      → submit fl s source fresh req w ≡ (record { id = 0; total = 0; error = some e }, w)
  unfolding submit
  submit_refused s source fresh req e w g = ground arith

  -- A request with more pairs than the service allows is refused before anything is written: the store is as it was, no job id is returned, and the error has the number of pairs.
  pub submit_too_many :
      (s : Service) (source : AirportSource Float) (fresh : ℕ) (req : SearchRequest Float)
      (pairs : List GeneratedPair) (w : World (SearchRequest Float))
      → generate_tuples fl source s.hubs req ≡ ok pairs
      → s.max_pairs < length pairs
      → submit fl s source fresh req w
        ≡ (record { id = 0; total = length pairs; error = some (too_many_pairs (length pairs)) }, w)
  unfolding submit
  submit_too_many s source fresh req pairs w g many = ground arith
