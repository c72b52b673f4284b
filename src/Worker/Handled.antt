-- ===== src/Worker/Handled.antt =====
-- What the methods keep that the handler of internal/worker/fareworker.go calls for one search, the
-- handler keeps.
use flight_circle_search.Base.{ℕ, List, Bytes, Option, none, some, Result, ok, err}
use flight_circle_search.Fares.{FareError, auth, invalid_input, rate_limited, provider_down, other}
use flight_circle_search.Jobs.{RowStatus}
use flight_circle_search.Jobs.Store.{World, RepoError, SearchJobArgs}
use flight_circle_search.Jobs.Keeps.{Keeps, Keeps-bind, Keeps-returns}
use flight_circle_search.Jobs.Repository.{
  update_result, mark_result_dead_letter, update_job_progress, mark_job_complete_if_done,
}
use flight_circle_search.Worker.{
  Wait, acquired, cancelled, refused, mark_dead_letter, outcome_of, handle_error,
  progress_best_effort, delivered, deliver, work,
}

-- The writes of a search for the result `n` of the job `id`.
pub record SearchKeeps {R : Type 0} (P : World R → Type 0) (n id : ℕ) : Type 0 where
  pub updates : (fare : Bytes) → Keeps P (update_result n RowStatus.complete fare none)
  pub buries : (reason : Bytes) → Keeps P (mark_result_dead_letter n reason)
  pub recounts : Keeps P (update_job_progress id)
  pub finishes : Keeps P (mark_job_complete_if_done id)

module _ {R : Type 0} {P : World R → Type 0} {n id : ℕ} (k : SearchKeeps P n id) where
  mark_dead_letter_keeps : (reason : Bytes) → Keeps P (mark_dead_letter n id reason)
  unfolding mark_dead_letter
  mark_dead_letter_keeps reason =
      Keeps-bind _ _ (k.buries reason) (λ _.
        Keeps-bind _ _ (k.recounts) (λ _. Keeps-bind _ _ (k.finishes) (λ _. Keeps-returns tt)))

  outcome_keeps : (p : Result RepoError (Unit {0}) × World R) → P p.1 → P (outcome_of p).1
  outcome_keeps (ok _, w) h = h
  outcome_keeps (err e, w) h = h

  dead_keeps :
      (reason : Bytes) (w : World R) → P w → P (outcome_of (mark_dead_letter n id reason w)).1
  dead_keeps reason w h =
      outcome_keeps (mark_dead_letter n id reason w) ((mark_dead_letter_keeps reason).at w h)

  handle_error_keeps : (e : FareError) (w : World R) → P w → P (handle_error n id e w).1
  unfolding handle_error
  handle_error_keeps auth w h = dead_keeps _ w h
  handle_error_keeps invalid_input w h = dead_keeps _ w h
  handle_error_keeps rate_limited w h = h
  handle_error_keeps provider_down w h = h
  handle_error_keeps (other text) w h = dead_keeps _ w h

  delivered_keeps : (p : Result RepoError (Unit {0}) × World R) → P p.1 → P (delivered id p).1
  unfolding progress_best_effort
  delivered_keeps (err e, w) h = h
  delivered_keeps (ok _, w) h = (k.finishes).at _ ((k.recounts).at w h)

module _ {R : Type 0} {P : World R → Type 0} (a : SearchJobArgs)
    (k : SearchKeeps P a.result_id a.job_id) where
  deliver_keeps : (bytes : Option Bytes) (w : World R) → P w → P (deliver a bytes w).1
  deliver_keeps none w h = h
  deliver_keeps (some bytes) w h = delivered_keeps k _ ((k.updates bytes).at w h)

  pub work_keeps :
      {Fare : Type 0} (encode : List Fare → Option Bytes) (wait : Wait)
      (answer : Result FareError (List Fare)) (w : World R)
      → P w
      → P (work encode wait answer a w).1
  unfolding work
  work_keeps encode cancelled answer w h = h
  work_keeps encode (refused text) answer w h = h
  work_keeps encode acquired (err e) w h = handle_error_keeps k e w h
  work_keeps encode acquired (ok fares) w h = deliver_keeps _ w h
