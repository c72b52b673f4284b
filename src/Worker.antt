-- ===== src/Worker.antt =====
-- internal/worker/fareworker.go: the handler of one queued search. What the rate limiter and the
-- fare provider answer are arguments; log lines are left out.
pub mod Outcomes
pub mod Handled
pub mod Turns
pub mod Stuck
pub mod Retention
pub mod Kept
pub mod Runs
pub mod Advance
pub mod Completion
pub mod Limiter
pub mod InFlight
use flight_circle_search.Base.{
  ℕ, Bool, Option, none, some, List, [], Bytes, codes, Result, ok, err, ltb, if◌then◌else◌, length,
}
use flight_circle_search.Fares.{FareError, auth, invalid_input, rate_limited, provider_down, other}
use flight_circle_search.Jobs.{RowStatus}
use flight_circle_search.Jobs.Store.{World, RepoError, SearchJobArgs, Exec, ◌>>=◌, ◌>>◌, returns}
use flight_circle_search.Jobs.Repository.{
  update_result, mark_result_dead_letter, update_job_progress, mark_job_complete_if_done,
}

-- What `RateLimiter.Wait` returns: a slot, the error of a cancelled context, or another error.
pub data Wait : Type 0 where
  acquired : Wait
  cancelled : Wait
  refused : Bytes → Wait

-- What the handler returns to River: nil, a snooze, or an error, for which River tries again.
pub data WorkError : Type 0 where
  limiter : Bytes → WorkError
  marshal : WorkError
  repo : RepoError → WorkError
  provider : FareError → WorkError

pub data Outcome : Type 0 where
  finished : Outcome
  snoozed : Outcome
  retry : WorkError → Outcome

module _ {R : Type 0} where
  unfoldable pub mark_dead_letter : ℕ → ℕ → Bytes → Exec R (Unit {0})
  mark_dead_letter result_id job_id reason = do
    mark_result_dead_letter result_id reason
    update_job_progress job_id
    _ ← mark_job_complete_if_done job_id
    returns tt

  abbrev pub outcome_of : Result RepoError (Unit {0}) × World R → Outcome × World R
  outcome_of (ok _, w) = (finished, w)
  outcome_of (err e, w) = (retry (repo e), w)

  unfoldable pub handle_error : ℕ → ℕ → FareError → World R → Outcome × World R
  handle_error result_id job_id auth w =
      outcome_of (mark_dead_letter result_id job_id (codes "auth_failed") w)
  handle_error result_id job_id invalid_input w =
      outcome_of (mark_dead_letter result_id job_id (codes "invalid_input") w)
  handle_error result_id job_id rate_limited w = (retry (provider rate_limited), w)
  handle_error result_id job_id provider_down w = (retry (provider provider_down), w)
  handle_error result_id job_id (other text) w =
      outcome_of (mark_dead_letter result_id job_id (codes "unknown_error") w)

  -- The end of the handler: the errors of both calls are logged and dropped.
  unfoldable pub progress_best_effort : ℕ → World R → World R
  progress_best_effort job_id w =
      (mark_job_complete_if_done job_id (update_job_progress job_id w).1).1

  abbrev pub delivered : ℕ → Result RepoError (Unit {0}) × World R → Outcome × World R
  delivered job_id (err e, w) = (retry (repo e), w)
  delivered job_id (ok _, w) = (finished, progress_best_effort job_id w)

  abbrev pub deliver : SearchJobArgs → Option Bytes → World R → Outcome × World R
  deliver args none w = (retry marshal, w)
  deliver args (some fare_bytes) w =
      delivered args.job_id (update_result args.result_id RowStatus.complete fare_bytes none w)

  module _ {Fare : Type 0} (encode : List Fare → Option Bytes) where
    abbrev pub searched : SearchJobArgs → Result FareError (List Fare) → World R → Outcome × World R
    searched args (err e) w = handle_error args.result_id args.job_id e w
    searched args (ok fares) w =
        deliver args (if ltb 0 (length fares) then encode fares else some []) w

    unfoldable pub work :
        Wait → Result FareError (List Fare) → SearchJobArgs → World R → Outcome × World R
    work cancelled answer args w = (snoozed, w)
    work (refused text) answer args w = (retry (limiter text), w)
    work acquired answer args w = searched args answer w
