-- ===== src/Examples/Running.antt =====
-- Runs of the methods, and what handlers change of a job, at concrete inputs.
use flight_circle_search.Base.{
  ℕ, List, [], ◌∷◌, ok, err, refl, ◌≡◌, ◌≤◌, length, arith, count, keep,
}
use flight_circle_search.Fares.{auth}
use flight_circle_search.Jobs.Service.{AirportSource}
use flight_circle_search.Jobs.{
  SearchRequest, SearchJobResult, RowStatus, is_final, is_done, is_open,
}
use flight_circle_search.Jobs.Store.{World, call, returns}
use flight_circle_search.Jobs.Repository.{
  find, create_job, in_transaction, insert_job, insert_results, copy_rows, get_job, list_results,
}
use flight_circle_search.Jobs.Service.{new_job, submit}
use flight_circle_search.Jobs.Submit.{fresh_job}
use flight_circle_search.Jobs.Sound.{IsSound}
use flight_circle_search.Worker.{acquired, work}
use flight_circle_search.Worker.Turns.{Reach, turn, after_turn}
use flight_circle_search.Worker.Runs.{
  Run, Method, Run-IsSound, program-IsRun, reported_counts, empty-IsSound,
}
use flight_circle_search.Worker.Retention.{retention_work}
use flight_circle_search.Worker.Advance.{IsAhead, Reach-IsAhead}
use flight_circle_search.Examples.Data.{whole, source, service, request, empty_world}
use flight_circle_search.Examples.Handlers.{world, job, row, args, encode, job_found}

program-IsRun_example :
    ((src : AirportSource ℕ) (fresh : ℕ) (req : SearchRequest ℕ)
      → Run 5000 empty_world (submit whole service src fresh req empty_world).1)
    × ((w' : World (SearchRequest ℕ)) → Reach encode empty_world w' → Run 5000 empty_world w')
    × ((now : ℕ) → Run 5000 empty_world (retention_work now empty_world).1)
program-IsRun_example = program-IsRun whole service encode empty_world

Run-IsSound_example : IsSound 5000 (submit whole service source 9 request empty_world).1
Run-IsSound_example =
    Run-IsSound 5000 ((program-IsRun whole service encode empty_world).0 source 9 request)
      (empty-IsSound 5000 empty_world refl refl)

-- A job of one pair that was created.
abbrev one_pair : List SearchJobResult
one_pair = row 0 RowStatus.pending ∷ []

abbrev stored : World (SearchRequest ℕ)
stored = (create_job 9 (new_job request 1) one_pair empty_world).1

got : get_job 9 stored ≡ (ok (fresh_job 9 request 1 7), stored)
unfolding get_job create_job in_transaction insert_job insert_results copy_rows call returns find
    count
got = refl

listed : list_results 9 stored ≡ (ok (copy_rows 9 1 one_pair), stored)
unfolding list_results create_job in_transaction insert_job insert_results copy_rows call returns
    keep count
listed = refl

reported_counts_example :
    (0 ≤ 0)
    × (0 ≤ 1)
    × (1 ≡ length (copy_rows 9 1 one_pair))
    × (length (copy_rows 9 1 one_pair) ≤ 5000)
reported_counts_example =
    reported_counts 5000 9 stored stored (fresh_job 9 request 1 7) (copy_rows 9 1 one_pair) refl
      refl (Run.step Run.begin (Method.creates 9 request one_pair (omega arith))) got listed

world-IsSound : IsSound 5000 world
unfolding count is_final is_done is_open
world-IsSound = record {
  one_job = λ id. ground arith;
  one_row = λ n. ground arith;
  numbered = λ n q. ground arith;
  owned = λ id q. ground arith;
  each_job = (
    record {
      counted = refl;
      bounded = omega arith;
      progress = omega arith;
      failures = omega arith;
      dated = refl;
      closed = λ q. cc;
    },
    tt,
  );
}

-- The provider refuses the queued search of the job.
abbrev refused : World (SearchRequest ℕ)
refused = after_turn [] [] args (work encode acquired (err auth) args (record world { clock = 9 }))

Reach-IsAhead_example : IsAhead job refused
Reach-IsAhead_example =
    Reach-IsAhead encode 5000 job
      (Reach.next Reach.here (turn [] [] args acquired (err auth) [] 9 refl refl)) world-IsSound
      job_found
