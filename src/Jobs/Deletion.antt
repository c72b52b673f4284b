-- ===== src/Jobs/Deletion.antt =====
-- What a claim and a deletion change in the tables.
use flight_circle_search.Base.{
  ap, codes, nat_beq_iff, ℕ, ◌-◌, ◌≡◌, refl, ◌↔◌, Bool, false, ◌&&◌, List, [], ◌∷◌, Memᴰ, ok, arith,
  count, keep, mem-keep, mem_keep_of, nat_eq, ◌==◌, ltb, leb, if◌then◌else◌, some, Bool-cases, inl,
  inr, codes, nat_beq_iff,
}
use flight_circle_search.Jobs.{SearchJob, SearchJobResult, RowStatus, is_pending}
use flight_circle_search.Jobs.Store.{World, call}
use flight_circle_search.Jobs.Repository.{
  find, has_id, of_job, of_job_in, claim_first, claim_next_result, delete_jobs_older_than,
}
use flight_circle_search.Jobs.Tables.{map_option, call_ok}

abbrev pub claimed : ℕ → SearchJobResult → SearchJobResult
claimed now r = record r { status = RowStatus.claimed; completed_at = some now }

claim_first-found :
    (id now : ℕ) (rs : List SearchJobResult)
    → (claim_first id now rs).0 ≡ map_option (claimed now) (find (of_job_in id is_pending) rs)
unfolding claim_first find
claim_first-found id now [] = refl
claim_first-found id now (r ∷ rs) = ground (arith, claim_first-found id now rs)

claim_first-count :
    (id now : ℕ) (rs : List SearchJobResult)
    → count (of_job_in id is_pending) (claim_first id now rs).1
      ≡ count (of_job_in id is_pending) rs - 1
unfolding claim_first count is_pending
claim_first-count id now [] = refl
claim_first-count id now (r ∷ rs) = ground (arith, claim_first-count id now rs)

kept_rows :
    (p : ℕ → Bool) (id : ℕ) (rs : List SearchJobResult)
    → count (of_job id) (keep (λ r. p r.job_id) rs) ≡ (if p id then count (of_job id) rs else 0)
unfolding keep count
kept_rows p id [] = ground arith
kept_rows p id (r ∷ rs) = elim (Bool-cases (r.job_id == id)) [
  | inl q ↦ ground (arith, kept_rows p id rs, ap p ((nat_beq_iff r.job_id id).0 q))
  | inr q ↦ ground (arith, kept_rows p id rs)
]

module _ {R : Type 0} where
  -- On a store that answers, a claim returns the first pending row of the job, marked as claimed, or nothing if there is none, and leaves one pending row of the job less, or none if there was none.
  pub claim_next_result_lem :
      (id : ℕ) (w : World R)
      → w.faults ≡ []
      → ((claim_next_result id w).0
          ≡ ok (map_option (claimed w.clock) (find (of_job_in id is_pending) w.results)))
        × (count (of_job_in id is_pending) (claim_next_result id w).1.results
            ≡ count (of_job_in id is_pending) w.results - 1)
  unfolding claim_next_result
  claim_next_result_lem id w h =
      rw (call_ok (codes "claim: ") _ w h)
        (ap ok (claim_first-found id w.clock w.results), claim_first-count id w.clock w.results)

  abbrev pub old_of : ℕ → ℕ → SearchJob R → Bool
  old_of cutoff id job = has_id id job && ltb job.submitted_at cutoff

  -- On a store that answers, the deletion removes exactly the jobs that were submitted before the cutoff, and with a job that is removed all its rows; the rows of every other job stay.
  pub delete_jobs_older_than_lem :
      (cutoff : ℕ) (w : World R)
      → w.faults ≡ []
      → ((job : SearchJob R)
          → Memᴰ job (delete_jobs_older_than cutoff w).1.jobs
            ↔ (Memᴰ job w.jobs × (ltb job.submitted_at cutoff ≡ false)))
        × ((id : ℕ)
            → count (of_job id) (delete_jobs_older_than cutoff w).1.results ≡ (
                if leb (count (old_of cutoff id) w.jobs) 0 then count (of_job id) w.results else 0))
  unfolding delete_jobs_older_than call
  delete_jobs_older_than_lem cutoff w h = rw h (
    λ job. (
      λ m. let (here, q) = mem-keep _ w.jobs m in (here, ground arith),
      λ (here, q). mem_keep_of _ w.jobs here (rw q),
    ),
    λ id. kept_rows (λ k. leb (count (old_of cutoff k) w.jobs) 0) id w.results,
  )
