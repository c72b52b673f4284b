-- ===== src/Jobs/Submit/Described.antt =====
-- What a submission leaves in the store, pair by pair.
use flight_circle_search.Base.{
  ℕ, suc, ◌+◌, ◌≤◌, ◌≡◌, refl, ap, ◌∙◌, none, List, [], ◌∷◌, ◌++◌, ok, arith, count, length,
}
use flight_circle_search.Floats.{Floats}
use flight_circle_search.Jobs.{JobStatus, RowStatus, SearchJob, SearchJobResult, SearchRequest}
use flight_circle_search.Jobs.Store.{World, SearchJobArgs}
use flight_circle_search.Jobs.Repository.{has_id, of_job, copy_rows, update}
use flight_circle_search.Jobs.Service.{
  GeneratedPair, Service, AirportSource, generate_tuples, to_results, to_args, submit,
}
use flight_circle_search.Jobs.Submit.{submitted, submit_steps, length-to_results}

-- The pending rows of a job, one for each pair, numbered from `n`.
abbrev pub new_rows : ℕ → ℕ → List GeneratedPair → List SearchJobResult
new_rows id n [] = []
new_rows id n (p ∷ pairs) =
    record {
      id = n;
      job_id = id;
      origin = p.origin;
      destination = p.destination;
      departure_date = p.date;
      status = RowStatus.pending;
      fare = none;
      error = none;
      completed_at = none;
    }
    ∷ new_rows id (suc n) pairs

-- The searches for these rows.
abbrev pub new_searches : ℕ → ℕ → List GeneratedPair → List SearchJobArgs
new_searches id n [] = []
new_searches id n (p ∷ pairs) =
    record {
      result_id = n;
      job_id = id;
      origin = p.origin;
      destination = p.destination;
      date = p.date;
      attempts = 5;
    }
    ∷ new_searches id (suc n) pairs

-- A job that runs and of which nothing is done.
abbrev pub running_job : {R : Type 0} → ℕ → R → ℕ → ℕ → SearchJob R
running_job id req total now = record {
  id = id;
  status = JobStatus.running;
  request = req;
  total_pairs = total;
  completed_pairs = 0;
  failed_pairs = 0;
  submitted_at = now;
  completed_at = none;
  error_summary = none;
}

rows_described :
    (id n : ℕ) (pairs : List GeneratedPair)
    → copy_rows id n (to_results pairs) ≡ new_rows id n pairs
unfolding copy_rows to_results
rows_described id n [] = refl
rows_described id n (p ∷ pairs) = rw (rows_described id (suc n) pairs) refl

searches_described :
    (id n : ℕ) (pairs : List GeneratedPair)
    → to_args (new_rows id n pairs) ≡ new_searches id n pairs
unfolding to_args
searches_described id n [] = refl
searches_described id n (p ∷ pairs) = rw (searches_described id (suc n) pairs) refl

-- An update of the job that is new changes only this one.
update_last :
    {R : Type 0} (id : ℕ) (f : SearchJob R → SearchJob R) (jobs : List (SearchJob R))
    (job : SearchJob R)
    → count (has_id id) jobs ≡ 0
    → job.id ≡ id
    → update (has_id id) f (jobs ++ job ∷ []) ≡ jobs ++ f job ∷ []
unfolding count update
update_last id f [] job h e = ground arith
update_last id f (j ∷ jobs) job h e = ground (arith, update_last id f jobs job)

-- The store with the job, a row for each pair and a search for each row.
abbrev pub with_search : {R : Type 0} → ℕ → R → List GeneratedPair → World R → World R
with_search fresh req pairs w = record w {
  jobs = w.jobs ++ running_job fresh req (length pairs) w.clock ∷ [];
  results = w.results ++ new_rows fresh w.next_id pairs;
  next_id = w.next_id + length pairs;
  queue = w.queue ++ new_searches fresh w.next_id pairs;
}

same_parts :
    {R : Type 0} (w : World R) {jobs jobs' : List (SearchJob R)} {rows rows' : List SearchJobResult}
    {queue queue' : List SearchJobArgs} {n n' : ℕ}
    → jobs ≡ jobs'
    → rows ≡ rows'
    → n ≡ n'
    → queue ≡ queue'
    → (record w { jobs = jobs; results = rows; next_id = n; queue = queue })
      ≡ (record w { jobs = jobs'; results = rows'; next_id = n'; queue = queue' })
same_parts w a b c d = cc

submitted_described :
    {R : Type 0} (fresh : ℕ) (req : R) (pairs : List GeneratedPair) (w : World R)
    → count (has_id fresh) w.jobs ≡ 0
    → submitted fresh req pairs w ≡ with_search fresh req pairs w
submitted_described fresh req pairs w c =
    let same = length-to_results fresh req pairs in
    same_parts w
      (update_last fresh _ w.jobs _ c refl
        ∙ ap (λ n. w.jobs ++ running_job fresh req n w.clock ∷ []) same)
      (ap (λ rows. w.results ++ rows) (rows_described fresh w.next_id pairs))
      (ap (λ n. w.next_id + n) same)
      (ap (λ args. w.queue ++ args)
        (ap to_args (rows_described fresh w.next_id pairs)
          ∙ searches_described fresh w.next_id pairs))

module _ (fl : Floats) where
  open fl use {Float}

  -- With a store that answers, a UUID that is new, and at most the allowed number of pairs, a submission stores the job as running with its number of pairs and no progress, stores one pending row for each pair, queues one search for each of these rows, and changes nothing else.
  pub submit_lem :
      (s : Service) (source : AirportSource Float) (fresh : ℕ) (req : SearchRequest Float)
      (pairs : List GeneratedPair) (w : World (SearchRequest Float))
      → generate_tuples fl source s.hubs req ≡ ok pairs
      → length pairs ≤ s.max_pairs
      → w.faults ≡ []
      → count (has_id fresh) w.jobs ≡ 0
      → count (of_job fresh) w.results ≡ 0
      → submit fl s source fresh req w
        ≡ (record { id = fresh; total = length pairs; error = none }, with_search fresh req pairs w)
  submit_lem s source fresh req pairs w g room h c d =
      submit_steps fl s source fresh req pairs w g room h c d
      ∙ ap (λ v. (record { id = fresh; total = length pairs; error = none }, v))
          (submitted_described fresh req pairs w c)
