-- ===== src/Worker/Outcomes.antt =====
-- What a turn of the handler leaves in the store, on every branch.
use flight_circle_search.Base.{
  ℕ, ◌≡◌, refl, Bool, Option, none, some, List, [], Bytes, codes, Result, ok, err, Result-cases,
  arith, if◌then◌else◌, nat_eq, ◌==◌, ltb, length, true, ◌∙◌, sym, inl, inr, ap, map,
}
use flight_circle_search.Fares.{FareError, auth, invalid_input, rate_limited, provider_down, other}
use flight_circle_search.Jobs.{RowStatus, SearchJobResult, SearchJob, is_active}
use flight_circle_search.Jobs.Store.{fails, World, SearchJobArgs, call, returns}
use flight_circle_search.Jobs.Repository.{
  recount, close, finalize, update, of_job, update_result, mark_result_dead_letter,
  update_job_progress, mark_job_complete_if_done, find, has_id,
}
use flight_circle_search.Jobs.Tables.{count-update, update-eq-map}
use flight_circle_search.Jobs.Progress.{rows, settle, settled, settle_lem}
use flight_circle_search.Worker.{
  Wait, acquired, cancelled, refused, Outcome, finished, snoozed, retry, WorkError, limiter,
  marshal, provider, mark_dead_letter, handle_error, progress_best_effort, delivered, deliver, work,
}

-- What a search comes to: its fares, or a reason why there will be none.
pub data Verdict : Type 0 where
  served : Bytes → Verdict
  dead : Bytes → Verdict

module _ {Fare : Type 0} (encode : List Fare → Option Bytes) where
  abbrev of_bytes : Option Bytes → Result WorkError Verdict
  of_bytes none = err marshal
  of_bytes (some bytes) = ok (served bytes)

  -- The answers that end a search, and those after which it is tried again.
  abbrev pub verdict : Result FareError (List Fare) → Result WorkError Verdict
  verdict (err auth) = ok (dead (codes "auth_failed"))
  verdict (err invalid_input) = ok (dead (codes "invalid_input"))
  verdict (err (other text)) = ok (dead (codes "unknown_error"))
  verdict (err rate_limited) = err (provider rate_limited)
  verdict (err provider_down) = err (provider provider_down)
  verdict (ok fares) = of_bytes (if ltb 0 (length fares) then encode fares else some [])

  -- What the handler returns when it leaves the search undecided.
  abbrev of_verdict : Result WorkError Verdict → Option Outcome
  of_verdict (err e) = some (retry e)
  of_verdict (ok v) = none

  abbrev pub pending_outcome : Wait → Result FareError (List Fare) → Option Outcome
  pending_outcome cancelled answer = some snoozed
  pending_outcome (refused text) answer = some (retry (limiter text))
  pending_outcome acquired answer = of_verdict (verdict answer)

-- The row with the verdict in it; a dead letter keeps the fare that it had.
abbrev pub judged : ℕ → Verdict → SearchJobResult → SearchJobResult
judged now (served bytes) r = record r {
  status = RowStatus.complete;
  fare = if length bytes == 0 then none else some bytes;
  error = none;
  completed_at = some now;
}
judged now (dead reason) r = record r {
  status = RowStatus.dead_letter;
  error = some reason;
  completed_at = some now;
}

judged_job :
    (now : ℕ) (v : Verdict) (id : ℕ) (r : SearchJobResult)
    → of_job id (judged now v r) ≡ of_job id r
judged_job now (served bytes) id r = refl
judged_job now (dead reason) id r = refl

module _ {R : Type 0} where
  -- The store with the verdict in the row of the search.
  abbrev pub decided : SearchJobArgs → Verdict → World R → World R
  decided a v w = record w {
    results = update (λ r. r.id == a.result_id) (judged w.clock v) w.results;
  }

  -- The rows, that of the search with the verdict in it.
  abbrev pub judged_rows : SearchJobArgs → Verdict → World R → List SearchJobResult
  judged_rows a v w = map (λ r. if r.id == a.result_id then judged w.clock v r else r) w.results

  same_rows :
      (a : SearchJobArgs) (v : Verdict) (id : ℕ) (w : World R) → rows id (decided a v w) ≡ rows id w
  same_rows a v id w =
      count-update (of_job id) (λ r. r.id == a.result_id) (judged w.clock v) w.results
        (judged_job w.clock v id)

  settle_results : (id : ℕ) (w : World R) → w.faults ≡ [] → (settle id w).1.results ≡ w.results
  unfolding update_job_progress mark_job_complete_if_done finalize close recount call returns fails
  settle_results id w h = ground arith

  dead_steps :
      (reason : Bytes) (a : SearchJobArgs) (w : World R) (b : Bool)
      → w.faults ≡ []
      → (settle a.job_id (decided a (dead reason) w)).0 ≡ ok b
      → mark_dead_letter a.result_id a.job_id reason w
        ≡ (ok tt, (settle a.job_id (decided a (dead reason) w)).1)
  unfolding mark_dead_letter mark_result_dead_letter update_job_progress call returns
  dead_steps reason a w b h e = ground arith

  served_steps :
      (bytes : Bytes) (a : SearchJobArgs) (w : World R)
      → w.faults ≡ []
      → delivered a.job_id (update_result a.result_id RowStatus.complete bytes none w)
        ≡ (finished, (settle a.job_id (decided a (served bytes) w)).1)
  unfolding progress_best_effort update_result update_job_progress call
  served_steps bytes a w h = ground arith

  module _ {Fare : Type 0} (encode : List Fare → Option Bytes) where
    work_none :
        (answer : Result FareError (List Fare)) (a : SearchJobArgs) (e : WorkError) (w : World R)
        → verdict encode answer ≡ err e
        → work encode acquired answer a w ≡ (retry e, w)
    unfolding work handle_error
    work_none (err auth) a e w h = cc
    work_none (err invalid_input) a e w h = cc
    work_none (err (other text)) a e w h = cc
    work_none (err rate_limited) a e w h = ground arith
    work_none (err provider_down) a e w h = ground arith
    work_none (ok fares) a e w h = ground arith

    deliver_steps :
        (bytes : Option Bytes) (a : SearchJobArgs) (v : Verdict) (w : World R)
        → w.faults ≡ []
        → of_bytes encode bytes ≡ ok v
        → deliver a bytes w ≡ (finished, (settle a.job_id (decided a v w)).1)
    deliver_steps none a v w h e = cc
    deliver_steps (some bytes) a v w h e = ground (arith, served_steps bytes a w)

    work_steps :
        (answer : Result FareError (List Fare)) (a : SearchJobArgs) (v : Verdict) (w : World R)
        (b : Bool)
        → w.faults ≡ []
        → verdict encode answer ≡ ok v
        → (settle a.job_id (decided a v w)).0 ≡ ok b
        → work encode acquired answer a w ≡ (finished, (settle a.job_id (decided a v w)).1)
    unfolding work handle_error
    work_steps (err auth) a v w b h e k = ground (arith, dead_steps (codes "auth_failed") a w b)
    work_steps (err invalid_input) a v w b h e k =
        ground (arith, dead_steps (codes "invalid_input") a w b)
    work_steps (err (other text)) a v w b h e k =
        ground (arith, dead_steps (codes "unknown_error") a w b)
    work_steps (err rate_limited) a v w b h e k = cc
    work_steps (err provider_down) a v w b h e k = cc
    work_steps (ok fares) a v w b h e k =
        deliver_steps (if ltb 0 (length fares) then encode fares else some []) a v w h e

    -- The same, in the terms of the code.
    pub work_decides :
        (answer : Result FareError (List Fare)) (a : SearchJobArgs) (v : Verdict) (w : World R)
        (job : SearchJob R)
        → w.faults ≡ []
        → verdict encode answer ≡ ok v
        → find (has_id a.job_id) w.jobs ≡ some job
        → is_active job.status ≡ true
        → job.total_pairs ≡ rows a.job_id w
        → ((work encode acquired answer a w).0 ≡ finished)
          × ((work encode acquired answer a w).1.results ≡ (decided a v w).results)
          × (find (has_id a.job_id) (work encode acquired answer a w).1.jobs
              ≡ some (settled a.job_id (decided a v w) job))
    work_decides answer a v w job h e f q t =
        let (k, done) =
          settle_lem a.job_id (decided a v w) job h f q (t ∙ sym (same_rows a v a.job_id w)) in
        rw (work_steps answer a v w _ h e k) (refl, settle_results a.job_id (decided a v w) h, done)

    -- On a store that answers, a search that the provider answers for good, with fares or with an error that no retry can mend, is finished: its row gets the verdict, with the fares unless there are none, and no other result changes, and the row of its job, which is stored, unfinished and counts its rows right, is settled over the new results.
    pub work_settles :
        (answer : Result FareError (List Fare)) (a : SearchJobArgs) (v : Verdict) (w : World R)
        (job : SearchJob R)
        → w.faults ≡ []
        → verdict encode answer ≡ ok v
        → find (has_id a.job_id) w.jobs ≡ some job
        → is_active job.status ≡ true
        → job.total_pairs ≡ rows a.job_id w
        → ((work encode acquired answer a w).0 ≡ finished)
          × ((work encode acquired answer a w).1.results ≡ judged_rows a v w)
          × (find (has_id a.job_id) (work encode acquired answer a w).1.jobs
              ≡ some (settled a.job_id (record w { results = judged_rows a v w }) job))
    work_settles answer a v w job h e f q t =
        let (end, results, row) = work_decides answer a v w job h e f q t in
        let same = update-eq-map (λ r. r.id == a.result_id) (judged w.clock v) w.results in
        (
          end,
          results ∙ same,
          row ∙ ap (λ rs. some (settled a.job_id (record w { results = rs }) job)) same,
        )

    -- A search whose answer is to be asked for again, because the limiter gave no slot, because the provider is busy or down, or because the fares cannot be encoded, leaves the store as it was: it is snoozed if the limiter's wait was cancelled, and is retried with the error otherwise.
    pub work_undecided :
        (wait : Wait) (answer : Result FareError (List Fare)) (a : SearchJobArgs) (w : World R)
        (o : Outcome)
        → pending_outcome encode wait answer ≡ some o
        → work encode wait answer a w ≡ (o, w)
    unfolding work
    work_undecided cancelled answer a w o h = ground arith
    work_undecided (refused text) answer a w o h = ground arith
    work_undecided acquired answer a w o h = elim (Result-cases (verdict encode answer)) [
      | inl (v, q) ↦ ground arith
      | inr (e, q) ↦ ground (arith, work_none answer a e w)
    ]
