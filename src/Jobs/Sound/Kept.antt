-- ===== src/Jobs/Sound/Kept.antt =====
-- Every method of internal/jobengine/repository.go that writes keeps the tables sound.
use flight_circle_search.Base.{ℕ, refl}
use flight_circle_search.Jobs.{is_open}
use flight_circle_search.Jobs.Methods.{HandlersKeep, MethodsKeep}
use flight_circle_search.Jobs.Sound.{IsSound}
use flight_circle_search.Jobs.Sound.Rows.{
  update_result-IsSound, mark_result_dead_letter-IsSound, claim_next_result-IsSound,
}
use flight_circle_search.Jobs.Sound.Writes.{
  update_job_progress-IsSound, mark_job_complete_if_done-IsSound, mark_job_status-IsSound,
}
use flight_circle_search.Jobs.Sound.Creation.{create_job-IsSound}
use flight_circle_search.Jobs.Sound.Removal.{delete_jobs_older_than-IsSound}

module _ {R : Type 0} (limit : ℕ) where
  pub handlers-IsSound : HandlersKeep (IsSound {R = R} limit)
  unfolding is_open
  handlers-IsSound = record {
    elsewhere = λ w queue clock faults s. record {
      one_job = s.one_job;
      one_row = s.one_row;
      numbered = s.numbered;
      owned = s.owned;
      each_job = s.each_job;
    };
    updates = λ n fare. update_result-IsSound limit n _ fare _ refl;
    buries = λ n reason. mark_result_dead_letter-IsSound limit n reason;
    recounts = λ id. update_job_progress-IsSound limit id;
    finishes = λ id. mark_job_complete_if_done-IsSound limit id;
  }

  pub methods-IsSound : MethodsKeep (IsSound {R = R} limit) limit
  methods-IsSound = record {
    handlers = handlers-IsSound;
    creates = λ fresh req pairs room. create_job-IsSound limit fresh _ pairs refl room;
    marks = λ id status summary ne. mark_job_status-IsSound limit id status summary ne;
    claims = λ id. claim_next_result-IsSound limit id;
    deletes = λ cutoff. delete_jobs_older_than-IsSound limit cutoff;
  }
