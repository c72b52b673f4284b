-- ===== src/Examples/Endings.antt =====
-- Jobs that come to their end, at concrete inputs.
use flight_circle_search.Base.{some, ℕ, ◌≢◌, refl, [], ◌∷◌, ok, All, arith, count, codes, ◌≡◌}
use flight_circle_search.Jobs.{SearchRequest, SearchJob}
use flight_circle_search.Jobs.Store.{World, SearchJobArgs}
use flight_circle_search.Jobs.Repository.{find, has_id}
use flight_circle_search.Jobs.Progress.{open_rows}
use flight_circle_search.Jobs.Service.{submit}
use flight_circle_search.Worker.Outcomes.{served}
use flight_circle_search.Worker.Runs.{empty-IsSound}
use flight_circle_search.Worker.Completion.{IsEnded}
use flight_circle_search.Worker.Completion.Ends.{submitted_job_ends}
use flight_circle_search.Worker.Completion.Drains.{
  IsDecisive, submitted_job_drains, Served, HasEnded, Served-Healthy,
}
use flight_circle_search.Examples.Data.{whole, source, service, request, empty_world}
use flight_circle_search.Examples.Submissions.{some_tuples, generated}
use flight_circle_search.Examples.Handlers.{encode}

-- The provider finds one fare for each search.
finds : IsDecisive encode (λ a. ok (1 ∷ []))
finds = record { verdict_of = λ a. served (codes "[]"); decides_it = λ a. refl }

abbrev Drained : Type 0
Drained =
    (w' : World (SearchRequest ℕ)) × Served encode 9 (λ a. ok (1 ∷ []))
      (submit whole service source 9 request empty_world).1 w'
    × All (λ (a : SearchJobArgs). a.job_id ≢ 9) w'.queue
    × HasEnded 9 3 w'

submitted_job_drains_example : Drained
unfolding count
submitted_job_drains_example =
    submitted_job_drains whole encode service source 9 request some_tuples (λ a. ok (1 ∷ []))
      empty_world finds generated (omega arith) (omega arith) refl
      (empty-IsSound 5000 empty_world refl refl) refl tt

drained : Drained
unfolding count
drained =
    submitted_job_drains whole encode service source 9 request some_tuples (λ a. ok (1 ∷ []))
      empty_world finds generated (omega arith) (omega arith) refl
      (empty-IsSound 5000 empty_world refl refl) refl tt

submitted_job_ends_example :
    (job : SearchJob (SearchRequest ℕ)) × (find (has_id 9) drained.0.jobs ≡ some job)
    × IsEnded 9 drained.0 job
    × (job.total_pairs ≡ 3)
    × (open_rows 9 drained.0 ≡ 0)
unfolding count
submitted_job_ends_example =
    submitted_job_ends whole encode service source 9 request some_tuples empty_world generated
      (omega arith) (omega arith) refl (empty-IsSound 5000 empty_world refl refl) refl tt
      (Served-Healthy encode 9 (λ a. ok (1 ∷ [])) finds drained.1) drained.2
