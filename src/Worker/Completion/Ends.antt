-- ===== src/Worker/Completion/Ends.antt =====
-- Every job that was submitted comes to its end.
use flight_circle_search.Worker.Advance.{Reach-IsAhead}
use flight_circle_search.Worker.Completion.Kept.{Healthy-keeps}
use flight_circle_search.Worker.Completion.Start.{submitted-IsTracked}
use flight_circle_search.Base.{
  List, Option, ℕ, ◌<◌, ◌≤◌, ◌≡◌, ◌≢◌, refl, sym, ap, subst, ◌∙◌, some, [], ◌∷◌, Bytes, ok, arith,
  All, count, length, nat_eq,
}
use flight_circle_search.Jobs.Submit.{fresh_job}
use flight_circle_search.Api.Views.{found_fresh}
use flight_circle_search.Jobs.{JobStatus}
use flight_circle_search.Floats.{Floats}
use flight_circle_search.Jobs.{SearchJobResult, is_open, JobStatus, SearchJob, SearchRequest}
use flight_circle_search.Jobs.Store.{World, SearchJobArgs}
use flight_circle_search.Jobs.Repository.{of_job_in, find, has_id}
use flight_circle_search.Jobs.Service.{
  Service, AirportSource, GeneratedPair, generate_tuples, submit,
}
use flight_circle_search.Jobs.Submit.{submit_steps, fresh_job}
use flight_circle_search.Jobs.Methods.{submit_keeps}
use flight_circle_search.Jobs.Sound.{IsSound}
use flight_circle_search.Jobs.Sound.Kept.{methods-IsSound}
use flight_circle_search.Jobs.Progress.{open_rows}
use flight_circle_search.Api.Views.{found_fresh}
use flight_circle_search.Worker.Completion.{Healthy, open_row, IsEnded, IsTracked}
use flight_circle_search.Worker.Completion.Tracks.{count_unqueued}

-- When no number is that of an open row, no row is open.
none_open :
    (id : ℕ) (rs : List SearchJobResult)
    → ((n : ℕ) → count (open_row id n) rs ≡ 0)
    → count (of_job_in id is_open) rs ≡ 0
unfolding count
none_open id [] h = refl
none_open id (r ∷ rs) h = ground (arith, h r.id, none_open id rs (λ n. ground (arith, h n)))

same_total :
    {R : Type 0} (job job' : SearchJob R)
    → some job ≡ some job'
    → job.total_pairs ≡ job'.total_pairs
same_total job job' h = cc

module _ {Fare : Type 0} (fl : Floats) (encode : List Fare → Option Bytes) where
  open fl use {Float}

  -- A submission with at least one pair and at most the allowed number of pairs, on a store that answers and whose tables are sound, and for a new UUID that no queued search has, makes a job that ends: in any turns in which the job's own searches find a store that answers and are decided or left for another attempt, among any turns of other searches, once no search of the job is queued any more the job is finished, as failed exactly if all its pairs have failed and as complete otherwise, with the counts of its rows, and has as many pairs as were submitted and no open row.
  pub submitted_job_ends :
      (s : Service) (source : AirportSource Float) (fresh : ℕ) (req : SearchRequest Float)
      (pairs : List GeneratedPair) (w : World (SearchRequest Float))
      {w' : World (SearchRequest Float)}
      → generate_tuples fl source s.hubs req ≡ ok pairs
      → 0 < length pairs
      → length pairs ≤ s.max_pairs
      → w.faults ≡ []
      → IsSound s.max_pairs w
      → count (has_id fresh) w.jobs ≡ 0
      → All (λ (a : SearchJobArgs). (a.job_id ≢ fresh) × (a.result_id < w.next_id)) w.queue
      → Healthy encode fresh (submit fl s source fresh req w).1 w'
      → All (λ (a : SearchJobArgs). a.job_id ≢ fresh) w'.queue
      → (job : SearchJob (SearchRequest Float)) × (find (has_id fresh) w'.jobs ≡ some job)
        × IsEnded fresh w' job
        × (job.total_pairs ≡ length pairs)
        × (open_rows fresh w' ≡ 0)
  submitted_job_ends s source fresh req pairs w {w'} g many room calm sound free away run over =
      let owned = sound.owned fresh free in
      let start = submit_steps fl s source fresh req pairs w g room calm free owned in
      let began = submit_keeps fl s (methods-IsSound s.max_pairs) source fresh req w sound in
      let tracked = submitted-IsTracked fresh req pairs w (calm, free, owned) many away in
      let (reached, sound', t) =
        Healthy-keeps encode s.max_pairs fresh run began
          (subst (IsTracked fresh) (ap (λ x. x.1) (sym start)) tracked) in
      let none_left =
        none_open fresh w'.results
          (λ n. sym (t.matched n) ∙ count_unqueued fresh n w'.queue over) in
      let row : SearchJob (SearchRequest Float) =
        record (fresh_job fresh req (length pairs) w.clock) { status = JobStatus.running } in
      let ahead = Reach-IsAhead encode s.max_pairs row reached began (
        subst (λ v. find (has_id fresh) v.jobs ≡ some row) (ap (λ x. x.1) (sym start))
          (found_fresh fresh req pairs w (calm, free, owned))) in
      (
        t.job,
        t.stored,
        t.ended none_left,
        same_total t.job ahead.now (sym t.stored ∙ ahead.stored) ∙ ahead.advance.same_total,
        none_left,
      )
