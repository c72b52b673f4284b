-- ===== src/Worker/Completion/Tracks.antt =====
-- Counts of searches and of rows, and what does not change them.
use flight_circle_search.Base.{
  ℕ, suc, ◌<◌, ◌≡◌, ◌≢◌, refl, sym, ap, ◌∙◌, Bool, true, false, List, [], ◌∷◌, arith, All, count,
  keep, length, nat_eq, ◌==◌, leb, Bool-cases, inl, inr,
}
use flight_circle_search.Jobs.{SearchJobResult, is_open}
use flight_circle_search.Jobs.Store.{SearchJobArgs}
use flight_circle_search.Jobs.Repository.{update, of_job, copy_rows}
use flight_circle_search.Jobs.Service.{to_args}
use flight_circle_search.Worker.{Outcome, finished, snoozed, retry}
use flight_circle_search.Worker.Turns.{left_over}
use flight_circle_search.Worker.Outcomes.{Verdict, served, dead, judged}
use flight_circle_search.Worker.Completion.{queued, row_of, open_row, IsForeign}

pub count-keep-of {ℓ} :
    {A : Type ℓ} (p q : A → Bool) (xs : List A)
    → ((x : A) → p x ≡ true → q x ≡ true)
    → count p (keep q xs) ≡ count p xs
unfolding count keep
count-keep-of p q [] h = refl
count-keep-of p q (x ∷ xs) h = ground (arith, h x, count-keep-of p q xs h)

-- A test that only rows of the job pass counts the same in two tables with the same rows of the job.
pub count_same :
    (id : ℕ) (p : SearchJobResult → Bool) (rs rs' : List SearchJobResult)
    → ((r : SearchJobResult) → p r ≡ true → of_job id r ≡ true)
    → keep (of_job id) rs' ≡ keep (of_job id) rs
    → count p rs' ≡ count p rs
count_same id p rs rs' h e =
    sym (count-keep-of p (of_job id) rs' h) ∙ ap (count p) e ∙ count-keep-of p (of_job id) rs h

pub keep-update_none :
    (id n : ℕ) (f : SearchJobResult → SearchJobResult) (rs : List SearchJobResult)
    → ((r : SearchJobResult) → (f r).job_id ≡ r.job_id)
    → count (row_of id n) rs ≡ 0
    → keep (of_job id) (update (λ r. r.id == n) f rs) ≡ keep (of_job id) rs
unfolding keep update count
keep-update_none id n f [] same h = refl
keep-update_none id n f (r ∷ rs) same h = ground (arith, same r, keep-update_none id n f rs same)

-- The row with a verdict is not open, and the other rows are as they were.
pub count-judged :
    (id n now : ℕ) (v : Verdict) (rs : List SearchJobResult)
    → count (open_row id n) (update (λ r. r.id == n) (judged now v) rs) ≡ 0
unfolding count update is_open
count-judged id n now v [] = refl
count-judged id n now (served bytes) (r ∷ rs) =
    ground (arith, count-judged id n now (served bytes) rs)
count-judged id n now (dead reason) (r ∷ rs) =
    ground (arith, count-judged id n now (dead reason) rs)

pub count-judged_other :
    (id n m now : ℕ) (v : Verdict) (rs : List SearchJobResult)
    → (n == m) ≡ false
    → count (open_row id m) (update (λ r. r.id == n) (judged now v) rs) ≡ count (open_row id m) rs
unfolding count update
count-judged_other id n m now v [] h = refl
count-judged_other id n m now (served bytes) (r ∷ rs) h =
    ground (arith, count-judged_other id n m now (served bytes) rs h)
count-judged_other id n m now (dead reason) (r ∷ rs) h =
    ground (arith, count-judged_other id n m now (dead reason) rs h)

pub count-row_judged :
    (id n m now : ℕ) (v : Verdict) (rs : List SearchJobResult)
    → count (row_of id m) (update (λ r. r.id == n) (judged now v) rs) ≡ count (row_of id m) rs
unfolding count update
count-row_judged id n m now v [] = refl
count-row_judged id n m now (served bytes) (r ∷ rs) =
    ground (arith, count-row_judged id n m now (served bytes) rs)
count-row_judged id n m now (dead reason) (r ∷ rs) =
    ground (arith, count-row_judged id n m now (dead reason) rs)

-- A search that is put back is the same one.
pub count-left_over :
    (id n : ℕ) (a : SearchJobArgs) (o : Outcome)
    → 0 < length (left_over a o)
    → count (queued id n) (left_over a o) ≡ count (queued id n) (a ∷ [])
unfolding count left_over
count-left_over id n a finished h = omega arith
count-left_over id n a snoozed h = refl
count-left_over id n a (retry e) h = ground arith

pub count-left_over_other :
    (id n : ℕ) (a : SearchJobArgs) (o : Outcome)
    → a.job_id ≢ id
    → count (queued id n) (left_over a o) ≡ 0
unfolding count left_over
count-left_over_other id n a finished h = refl
count-left_over_other id n a snoozed h = ground arith
count-left_over_other id n a (retry e) h = ground arith

pub left_over-IsForeign :
    (id : ℕ) (rs : List SearchJobResult) (a : SearchJobArgs) (o : Outcome)
    → IsForeign id rs a
    → All (IsForeign id rs) (left_over a o)
unfolding left_over
left_over-IsForeign id rs a finished h = tt
left_over-IsForeign id rs a snoozed h = (h, tt)
left_over-IsForeign id rs a (retry e) h = elim (Bool-cases (leb a.attempts 1)) [
  | inl q ↦ rw q tt
  | inr q ↦ rw q (h, tt)
]

pub count_unqueued :
    (id n : ℕ) (queue : List SearchJobArgs)
    → All (λ (a : SearchJobArgs). a.job_id ≢ id) queue
    → count (queued id n) queue ≡ 0
unfolding count
count_unqueued id n [] h = refl
count_unqueued id n (a ∷ queue) (ne, h) = ground (arith, ne, count_unqueued id n queue h)

-- One search is queued for each row of a submission.
pub count-to_args :
    (id n k : ℕ) (ps : List SearchJobResult)
    → count (queued id n) (to_args (copy_rows id k ps)) ≡ count (open_row id n) (copy_rows id k ps)
unfolding count to_args copy_rows is_open
count-to_args id n k [] = refl
count-to_args id n k (p ∷ ps) = ground (arith, count-to_args id n (suc k) ps)
