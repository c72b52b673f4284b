-- ===== src/Jobs/Sound/Reports.antt =====
-- What `GetJob` and `ListResults` report of a job when the tables are sound.
use flight_circle_search.Base.{
  subst, ℕ, ◌≤◌, ◌≡◌, refl, List, [], ◌∷◌, Bytes, Option, none, some, Memᴰ, ok, arith, All-at,
  count, keep, length, nat_eq, inl, inr, Bool-cases, nat_beq_iff, codes, Bool,
}
use flight_circle_search.Jobs.{SearchJob, SearchJobResult}
use flight_circle_search.Jobs.Store.{World, call, attempt, returns, fails, proceed}
use flight_circle_search.Jobs.Repository.{find, has_id, of_job, get_job, list_results, found_job}
use flight_circle_search.Jobs.Tables.{count-done-open, find_satisfies}
use flight_circle_search.Jobs.Sound.{IsSound, IsSoundJob}

pub mem_find {ℓ} :
    {A : Type ℓ} (q : A → Bool) (xs : List A) (a : A) → find q xs ≡ some a → Memᴰ a xs
unfolding find
mem_find q [] a h = cc
mem_find q (x ∷ xs) a h = elim (Bool-cases (q x)) [
  | inl e ↦ Memᴰ.head (ground arith)
  | inr e ↦ Memᴰ.tail (mem_find q xs a (ground arith))
]

length-keep {ℓ} : {A : Type ℓ} (q : A → Bool) (xs : List A) → length (keep q xs) ≡ count q xs
unfolding keep count
length-keep q [] = refl
length-keep q (x ∷ xs) = ground (arith, length-keep q xs)

module _ {R : Type 0} where
  -- A job that was read is the one that is stored, and the read changed nothing.
  get_job_inv :
      (id : ℕ) (w u : World R) (job : SearchJob R)
      → get_job id w ≡ (ok job, u)
      → (find (has_id id) w.jobs ≡ some job) × (u.results ≡ w.results)
  unfolding get_job call returns fails
  get_job_inv id w u job h = go w.faults h
    where
      found :
          (row : Option (SearchJob R)) (v : World R)
          → found_job row v ≡ (ok job, u)
          → (row ≡ some job) × (u.results ≡ v.results)
      found none v k = ground arith
      found (some j) v k = (cc, cc)

      go :
          (l : List (Option Bytes))
          → (let p = attempt l (codes "select job: ") (λ v. (find (has_id id) v.jobs, v)) w in
              proceed p.0 found_job p.1)
            ≡ (ok job, u)
          → (find (has_id id) w.jobs ≡ some job) × (u.results ≡ w.results)
      go [] k = found (find (has_id id) w.jobs) w k
      go (none ∷ later) k = found (find (has_id id) w.jobs) _ k
      go (some text ∷ later) k = ground arith

  list_results_inv :
      (id : ℕ) (w u : World R) (rows : List SearchJobResult)
      → list_results id w ≡ (ok rows, u)
      → rows ≡ keep (of_job id) w.results
  unfolding list_results call
  list_results_inv id w u rows h = go w.faults h
    where
      go :
          (l : List (Option Bytes))
          → attempt l (codes "query results: ") (λ v. (keep (of_job id) v.results, v)) w
            ≡ (ok rows, u)
          → rows ≡ keep (of_job id) w.results
      go [] k = cc
      go (none ∷ later) k = cc
      go (some text ∷ later) k = ground arith

  -- A job that is stored counts its rows.
  pub counted_of_find :
      (limit id : ℕ) (w : World R) (job : SearchJob R)
      → IsSound limit w
      → find (has_id id) w.jobs ≡ some job
      → job.total_pairs ≡ count (of_job id) w.results
  counted_of_find limit id w job s found =
      subst (λ k. job.total_pairs ≡ count (of_job k) w.results)
        ((nat_beq_iff job.id id).0 (find_satisfies (has_id id) w.jobs job found))
        (All-at (IsSoundJob limit w.results) w.jobs s.each_job
          (mem_find (has_id id) w.jobs job found)).counted

  pub reported_bounds :
      (limit id : ℕ) (w u v : World R) (job : SearchJob R) (rows : List SearchJobResult)
      → IsSound limit w
      → get_job id w ≡ (ok job, u)
      → list_results id u ≡ (ok rows, v)
      → (job.failed_pairs ≤ job.completed_pairs)
        × (job.completed_pairs ≤ job.total_pairs)
        × (job.total_pairs ≡ length rows)
        × (length rows ≤ limit)
  reported_bounds limit id w u v job rows s h k =
      let (found, same) = get_job_inv id w u job h in
      let j =
        All-at (IsSoundJob limit w.results) w.jobs s.each_job
          (mem_find (has_id id) w.jobs job found) in
      let here = (nat_beq_iff job.id id).0 (find_satisfies (has_id id) w.jobs job found) in
      let measured : length rows ≡ count (of_job job.id) w.results =
        rw (list_results_inv id u v rows k, same, here) (length-keep (of_job id) w.results) in
      (
        j.failures,
        omega (arith, j.progress, j.counted, count-done-open job.id w.results),
        omega (arith, j.counted, measured),
        omega (arith, j.counted, j.bounded, measured),
      )
