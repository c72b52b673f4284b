-- ===== src/Worker/Completion/Start.antt =====
-- A job that was just submitted is tracked.
use flight_circle_search.Jobs.Sound.Counts.{count_mono, All-map, count-copy_rows_below}
use flight_circle_search.Base.{
  suc, List, All-append, ℕ, ◌<◌, ◌≡◌, ◌≢◌, refl, [], ◌∷◌, ◌++◌, arith, All, count, count-append,
  length, nat_eq,
}
use flight_circle_search.Jobs.{SearchJobResult, is_open, is_active, JobStatus}
use flight_circle_search.Jobs.Store.{World, SearchJobArgs}
use flight_circle_search.Jobs.Repository.{of_job, of_job_in, copy_rows}
use flight_circle_search.Jobs.Service.{GeneratedPair, to_results, to_args}
use flight_circle_search.Jobs.Submit.{submitted, fresh_job, length-to_results}
use flight_circle_search.Jobs.Sound.{is_row}
use flight_circle_search.Jobs.Progress.{open_rows}
use flight_circle_search.Api.Views.{IsFresh, found_fresh}
use flight_circle_search.Worker.Completion.{queued, row_of, open_row, IsForeign, IsTracked}
use flight_circle_search.Worker.Completion.Tracks.{count-to_args, count_unqueued}

count-open_copy_rows :
    (id n : ℕ) (ps : List SearchJobResult)
    → count (of_job_in id is_open) (copy_rows id n ps) ≡ length ps
unfolding count copy_rows is_open
count-open_copy_rows id n [] = refl
count-open_copy_rows id n (p ∷ ps) = ground (arith, count-open_copy_rows id (suc n) ps)

own-IsForeign :
    (id n : ℕ) (rs ps : List SearchJobResult) → All (IsForeign id rs) (to_args (copy_rows id n ps))
unfolding to_args copy_rows
own-IsForeign id n rs [] = tt
own-IsForeign id n rs (p ∷ ps) = (λ ne. absurd (ne refl), own-IsForeign id (suc n) rs ps)

module _ {R : Type 0} (fresh : ℕ) (req : R) (pairs : List GeneratedPair) (w : World R)
    (free : IsFresh fresh w) (many : 0 < length pairs)
    (away : All
      (λ (a : SearchJobArgs). (a.job_id ≢ fresh) × (a.result_id < w.next_id))
      w.queue) where
  abbrev new_rows : List SearchJobResult
  new_rows = copy_rows fresh w.next_id (to_results pairs)

  open_after : open_rows fresh (submitted fresh req pairs w) ≡ length pairs
  open_after = omega (
    arith,
    count-append (of_job_in fresh is_open) w.results new_rows,
    count_mono (of_job_in fresh is_open) (of_job fresh) w.results (λ r h. ground arith),
    free.2,
    count-open_copy_rows fresh w.next_id (to_results pairs),
    length-to_results fresh req pairs,
  )

  matched_at :
      (n : ℕ)
      → count (queued fresh n) (w.queue ++ to_args new_rows)
        ≡ count (open_row fresh n) (w.results ++ new_rows)
  matched_at n = omega (
    arith,
    count-append (queued fresh n) w.queue (to_args new_rows),
    count-append (open_row fresh n) w.results new_rows,
    count_unqueued fresh n w.queue (All-map w.queue away (λ a m h. h.0)),
    count_mono (open_row fresh n) (of_job fresh) w.results (λ r h. ground arith),
    free.2,
    count-to_args fresh n w.next_id (to_results pairs),
  )

  old-IsForeign :
      (a : SearchJobArgs) → a.result_id < w.next_id → IsForeign fresh (w.results ++ new_rows) a
  old-IsForeign a below ne = omega (
    arith,
    count-append (row_of fresh a.result_id) w.results new_rows,
    count_mono (row_of fresh a.result_id) (of_job fresh) w.results (λ r h. ground arith),
    free.2,
    count_mono (row_of fresh a.result_id) (is_row a.result_id) new_rows (λ r h. ground arith),
    count-copy_rows_below a.result_id fresh w.next_id (to_results pairs) (omega (arith, below)),
  )

  pub submitted-IsTracked : IsTracked fresh (submitted fresh req pairs w)
  unfolding is_active
  submitted-IsTracked = record {
    job = record (fresh_job fresh req (length pairs) w.clock) { status = JobStatus.running };
    stored = found_fresh fresh req pairs w free;
    matched = matched_at;
    foreign =
        All-append (IsForeign fresh (w.results ++ new_rows)) w.queue (to_args new_rows)
          (All-map w.queue away (λ a m h. old-IsForeign a h.1))
          (own-IsForeign fresh w.next_id (w.results ++ new_rows) (to_results pairs));
    active = λ h. refl;
    ended = λ h. absurd (omega (arith, h, open_after, many));
  }
