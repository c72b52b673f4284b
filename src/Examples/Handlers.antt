-- ===== src/Examples/Handlers.antt =====
-- The handler and the queue at concrete inputs.
use flight_circle_search.Base.{
  false, ℕ, ◌≡◌, ◌≢◌, refl, true, Option, some, none, List, [], ◌∷◌, Bytes, codes, err, nat_eq,
  count, arith,
}
use flight_circle_search.Fares.{auth, rate_limited}
use flight_circle_search.Jobs.{
  is_final, SearchRequest, SearchJob, SearchJobResult, JobStatus, RowStatus, is_active,
}
use flight_circle_search.Jobs.Store.{World, SearchJobArgs}
use flight_circle_search.Jobs.Repository.{find, has_id, mark_job_status}
use flight_circle_search.Jobs.Progress.{settled}
use flight_circle_search.Jobs.Service.{submit}
use flight_circle_search.Jobs.Submit.{fresh_job}
use flight_circle_search.Worker.{provider, work, acquired, finished, work, handle_error}
use flight_circle_search.Worker.Turns.{
  after_turn, Turn, turn, here, next, IsIdle, Reach-IsIdle, left_over,
}
use flight_circle_search.Worker.Stuck.{
  search_given_up, reopened, mark_running_late, submit_empty_never_ends,
}
use flight_circle_search.Worker.Outcomes.{dead, work_settles, judged_rows}
use flight_circle_search.Examples.Data.{whole, isolated, service, request, empty_world}
use flight_circle_search.Examples.Submissions.{nothing_generated}

abbrev pub row : ℕ → RowStatus → SearchJobResult
row n status = record {
  id = n;
  job_id = 9;
  origin = codes "AAA";
  destination = codes "CCC";
  departure_date = codes "2024-02-28";
  status = status;
  fare = none;
  error = none;
  completed_at = none;
}

abbrev pub job : SearchJob (SearchRequest ℕ)
job = record {
  id = 9;
  status = JobStatus.running;
  submitted_at = 7;
  completed_at = none;
  total_pairs = 2;
  completed_pairs = 0;
  failed_pairs = 0;
  error_summary = none;
  request = request;
}

abbrev pub args : SearchJobArgs
args = record {
  result_id = 2;
  job_id = 9;
  origin = codes "AAA";
  destination = codes "CCC";
  date = codes "2024-02-28";
  attempts = 5;
}

-- A job of two rows; the first is done, the second is open and queued.
abbrev pub world : World (SearchRequest ℕ)
world = record {
  jobs = job ∷ [];
  results = row 1 RowStatus.complete ∷ row 2 RowStatus.pending ∷ [];
  next_id = 3;
  clock = 8;
  queue = args ∷ [];
  faults = [];
}

-- The same job with both rows done.
abbrev all_done : World (SearchRequest ℕ)
all_done = record world {
  results = row 1 RowStatus.complete ∷ row 2 RowStatus.dead_letter ∷ [];
  queue = [];
}

abbrev pub encode : List ℕ → Option Bytes
encode fares = some (codes "[]")

pub job_found : find (has_id 9) world.jobs ≡ some job
unfolding find
job_found = refl

job_active : is_active job.status ≡ true
unfolding is_active
job_active = refl

work_settles_example :
    ((work encode acquired (err auth) args world).0 ≡ finished)
    × ((work encode acquired (err auth) args world).1.results
        ≡ judged_rows args (dead (codes "auth_failed")) world)
    × (find (has_id 9) (work encode acquired (err auth) args world).1.jobs
        ≡ some (
            settled 9
              (record world { results = judged_rows args (dead (codes "auth_failed")) world })
              job))
unfolding count
work_settles_example =
    work_settles encode (err auth) args (dead (codes "auth_failed")) world job refl refl job_found
      job_active refl

-- The last search of another job takes its turn.
abbrev other_args : SearchJobArgs
other_args = record args { job_id = 4 }

abbrev other_world : World (SearchRequest ℕ)
other_world = record world { queue = other_args ∷ [] }

other-Turn :
    Turn encode other_world
      (record other_world { queue = record other_args { attempts = 4 } ∷ []; clock = 11 })
unfolding work handle_error left_over
other-Turn = turn [] [] other_args acquired (err rate_limited) [] 11 refl refl

other : other_args.job_id ≢ 9
other h = ground arith

Reach-IsIdle_example :
    IsIdle 9
      (some job)
      (record other_world { queue = record other_args { attempts = 4 } ∷ []; clock = 11 })
Reach-IsIdle_example =
    Reach-IsIdle encode 9 (some job) (next here other-Turn)
      (record { row_is = job_found; unqueued = (other, tt) })

-- The handlers have finished the job before `Submit` marks it as running.
abbrev completed : SearchJob (SearchRequest ℕ)
completed = record job { status = JobStatus.complete; completed_at = some 8; completed_pairs = 2 }

abbrev early : World (SearchRequest ℕ)
early = record all_done { jobs = completed ∷ [] }

completed_found : find (has_id 9) early.jobs ≡ some completed
unfolding find
completed_found = refl

mark_running_late_example :
    find (has_id 9) (mark_job_status 9 JobStatus.running none early).1.jobs
    ≡ some (reopened completed)
mark_running_late_example = mark_running_late encode 9 completed early refl completed_found tt here

submit_empty_never_ends_example :
    find (has_id 9) (submit whole service isolated 9 request empty_world).1.jobs
    ≡ some (reopened (fresh_job 9 request 0 7))
unfolding count
submit_empty_never_ends_example =
    submit_empty_never_ends whole encode service isolated 9 request empty_world nothing_generated
      refl refl refl tt here

-- The last attempt of the only queued search meets a provider that is busy.
abbrev last_args : SearchJobArgs
last_args = record args { attempts = 1 }

search_given_up_example :
    (find
        (has_id 9)
        (after_turn [] [] last_args (
          work encode acquired
            (err rate_limited)
            last_args
            (record world { queue = last_args ∷ [] }))).jobs
      ≡ some job)
    × (is_final job.status ≡ false)
search_given_up_example =
    search_given_up encode [] [] last_args acquired (err rate_limited) (provider rate_limited) job
      (record world { queue = last_args ∷ [] }) refl tt (omega arith) refl job_found job_active here
