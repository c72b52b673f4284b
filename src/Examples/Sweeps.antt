-- ===== src/Examples/Sweeps.antt =====
-- Claims and deletions at concrete inputs.
use flight_circle_search.Base.{ℕ, ◌≡◌, ◌↔◌, refl, Memᴰ, false, count, if◌then◌else◌, leb, ltb}
use flight_circle_search.Jobs.{SearchJob, SearchRequest}
use flight_circle_search.Jobs.Repository.{of_job, delete_jobs_older_than}
use flight_circle_search.Jobs.Deletion.{old_of, delete_jobs_older_than_lem}
use flight_circle_search.Examples.Handlers.{world}

delete_jobs_older_than_lem_example :
    ((j : SearchJob (SearchRequest ℕ))
      → Memᴰ j (delete_jobs_older_than 8 world).1.jobs
        ↔ (Memᴰ j world.jobs × (ltb j.submitted_at 8 ≡ false)))
    × ((id : ℕ)
        → count (of_job id) (delete_jobs_older_than 8 world).1.results
          ≡ (if leb (count (old_of 8 id) world.jobs) 0 then count (of_job id) world.results else 0))
delete_jobs_older_than_lem_example = delete_jobs_older_than_lem 8 world refl
