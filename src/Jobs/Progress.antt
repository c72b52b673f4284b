-- ===== src/Jobs/Progress.antt =====
-- What the recount of a job and the test for its end do together.
use flight_circle_search.Base.{
  ℕ, ◌+◌, ◌≡◌, refl, ◌∙◌, Bool, true, false, some, [], ok, arith, if◌then◌else◌, count, nat_eq,
  ◌==◌, ltb, Bool-cases, inl, inr,
}
use flight_circle_search.Jobs.{
  JobStatus, SearchJob, is_open, is_dead, is_failed, is_done, is_active,
}
use flight_circle_search.Jobs.Store.{World, call, Exec, returns, ◌>>◌}
use flight_circle_search.Jobs.Repository.{
  find, of_job, of_job_in, has_id, recount, update_job_progress, unfinished, close, finalize,
  mark_job_complete_if_done,
}
use flight_circle_search.Jobs.Tables.{
  find-update, find_satisfies, count-done-open, count-bad-le-done, count-pos_of_find,
}

module _ {R : Type 0} (id : ℕ) where
  abbrev pub rows : World R → ℕ
  rows w = count (of_job id) w.results

  abbrev pub open_rows : World R → ℕ
  open_rows w = count (of_job_in id is_open) w.results

  abbrev pub done_rows : World R → ℕ
  done_rows w = count (of_job_in id is_done) w.results

  abbrev pub bad_rows : World R → ℕ
  bad_rows w = count (of_job_in id is_dead) w.results + count (of_job_in id is_failed) w.results

  -- The two calls that end the handling of a result.
  abbrev pub settle : Exec R Bool
  settle = update_job_progress id >> mark_job_complete_if_done id

  find-recount :
      (w : World R) (job : SearchJob R)
      → find (has_id id) w.jobs ≡ some job
      → find (has_id id) (recount id w).jobs
        ≡ some (record job { completed_pairs = done_rows w; failed_pairs = bad_rows w })
  unfolding recount
  find-recount w job h =
      find-update (has_id id) (has_id id) _ w.jobs (λ x. refl)
      ∙ ground (arith, h, find_satisfies (has_id id) w.jobs job h)

  find-close :
      (w : World R) (job : SearchJob R) (final : JobStatus)
      → find (has_id id) w.jobs ≡ some job
      → is_active job.status ≡ true
      → find (has_id id) (close id final w).jobs
        ≡ some (record job { status = final; completed_at = some w.clock })
  unfolding close
  find-close w job final h a =
      find-update (has_id id) (unfinished id) _ w.jobs (λ x. refl)
      ∙ ground (arith, h, find_satisfies (has_id id) w.jobs job h)

  -- `MarkJobCompleteIfDone` on a store that answers, for a job that is there.
  mark_job_complete_if_done_lem :
      (w : World R) (job : SearchJob R)
      → w.faults ≡ []
      → find (has_id id) w.jobs ≡ some job
      → mark_job_complete_if_done id w ≡ (
          if ltb 0 (open_rows w)
          then (ok false, w)
          else if ltb (job.completed_pairs + job.failed_pairs) job.total_pairs
          then (ok false, w)
          else (
            ok (ltb 0 (count (unfinished id) w.jobs)),
            close id
                (if job.failed_pairs == job.total_pairs
                  then JobStatus.failed
                  else JobStatus.complete)
                w,
          ))
  unfolding mark_job_complete_if_done finalize call returns
  mark_job_complete_if_done_lem w job h e = ground arith

  same_results : (w : World R) → (recount id w).results ≡ w.results
  unfolding recount
  same_results w = refl

  same_clock : (w : World R) → (recount id w).clock ≡ w.clock
  unfolding recount
  same_clock w = refl

  same_faults : (w : World R) → w.faults ≡ [] → (recount id w).faults ≡ []
  unfolding recount
  same_faults w h = h

  is_unfinished :
      (job : SearchJob R)
      → has_id id job ≡ true
      → is_active job.status ≡ true
      → unfinished id job ≡ true
  is_unfinished job h a = ground arith

  settle_steps :
      (w : World R) → w.faults ≡ [] → settle w ≡ mark_job_complete_if_done id (recount id w)
  unfolding update_job_progress call
  settle_steps w h = rw h refl

  -- How the row of a job stands after the two calls.
  abbrev pub settled : World R → SearchJob R → SearchJob R
  settled w job =
      if open_rows w == 0
      then record job {
        status = if bad_rows w == job.total_pairs then JobStatus.failed else JobStatus.complete;
        completed_at = some w.clock;
        completed_pairs = done_rows w;
        failed_pairs = bad_rows w;
      }
      else record job { completed_pairs = done_rows w; failed_pairs = bad_rows w }

  -- For an unfinished job that counts its rows right, on a store that answers, the recount and the test for the end give the job its true counts; they finish it exactly if no row is open, as failed exactly if every row failed or is a dead letter, and they report whether they did.
  pub settle_lem :
      (w : World R) (job : SearchJob R)
      → w.faults ≡ []
      → find (has_id id) w.jobs ≡ some job
      → is_active job.status ≡ true
      → job.total_pairs ≡ rows w
      → ((settle w).0 ≡ ok (open_rows w == 0))
        × (find (has_id id) (settle w).1.jobs ≡ some (settled w job))
  settle_lem w job h e a t =
      let job' : SearchJob R = record job {
        completed_pairs = done_rows w;
        failed_pairs = bad_rows w;
      } in
      let e' = find-recount w job e in
      let final : JobStatus =
        if bad_rows w == job.total_pairs then JobStatus.failed else JobStatus.complete in
      rw (settle_steps w h, mark_job_complete_if_done_lem (recount id w) job' (same_faults w h) e')
        (elim (Bool-cases (ltb 0 (open_rows w))) [
          | inl o ↦ (ground (arith, same_results w), ground (arith, same_results w, e'))
          | inr z ↦ (
            ground (
              arith,
              same_results w,
              count-done-open id w.results,
              count-bad-le-done id w.results,
              count-pos_of_find (has_id id) (unfinished id) (recount id w).jobs job' e'
                  (is_unfinished job (find_satisfies (has_id id) w.jobs job e) a),
            ),
            ground (
              arith,
              same_results w,
              same_clock w,
              count-done-open id w.results,
              count-bad-le-done id w.results,
              find-close (recount id w) job' final e' a,
            ),
          )
        ])
