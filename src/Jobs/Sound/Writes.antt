-- ===== src/Jobs/Sound/Writes.antt =====
-- The statements that write jobs keep the tables sound.
use flight_circle_search.Base.{
  codes, ℕ, ◌≡◌, ◌≢◌, refl, Bool, true, false, List, Bytes, Option, none, some, arith, count,
  if◌then◌else◌, nat_eq, ◌==◌, ltb, Bool-cases, inl, inr, &&-split, nat_beq_iff, subst, sym,
}
use flight_circle_search.Jobs.{SearchJob, JobStatus, is_open, is_final}
use flight_circle_search.Jobs.Store.{World, ◌>>=◌, returns}
use flight_circle_search.Jobs.Keeps.{
  Keeps, Keeps-call, Keeps-bind, Keeps-if, Keeps-returns, Keeps-fails, Keeps-query,
}
use flight_circle_search.Jobs.Repository.{
  find, update, has_id, of_job_in, recount, update_job_progress, unfinished, close, finalize,
  finish, query, mark_job_complete_if_done, mark_job_status, find,
}
use flight_circle_search.Jobs.Tables.{count-update, count-bad-le-done}
use flight_circle_search.Jobs.Sound.{IsSound, IsSoundJob}
use flight_circle_search.Jobs.Sound.Counts.{All-update}
use flight_circle_search.Jobs.Sound.Rows.{faults-IsSound}

outcome-is_final : (b : Bool) → is_final (if b then JobStatus.failed else JobStatus.complete) ≡ true
unfolding is_final
outcome-is_final b = ground arith

module _ {R : Type 0} (limit : ℕ) where
  updated-IsSound :
      (w : World R) (p : SearchJob R → Bool) (f : SearchJob R → SearchJob R)
      → ((job : SearchJob R) → (f job).id ≡ job.id)
      → ((job : SearchJob R)
          → p job ≡ true
          → IsSoundJob limit w.results job
          → IsSoundJob limit w.results (f job))
      → IsSound limit w
      → IsSound limit (record w { jobs = update p f w.jobs })
  updated-IsSound w p f same sound s =
      let counts = λ (id : ℕ). count-update (has_id id) p f w.jobs (λ job. rw (same job) refl) in
      record {
        one_job = λ id. omega (arith, counts id, s.one_job id);
        one_row = s.one_row;
        numbered = s.numbered;
        owned = λ id q. s.owned id (omega (arith, counts id, q));
        each_job = All-update _ p f w.jobs s.each_job (λ job m q j. sound job q j);
      }

  pub recount-IsSound : (id : ℕ) (w : World R) → IsSound limit w → IsSound limit (recount id w)
  unfolding recount
  recount-IsSound id w =
      updated-IsSound w (has_id id) _ (λ job. refl)
        (λ job q j. record {
          counted = j.counted;
          bounded = j.bounded;
          progress = ground (arith, (nat_beq_iff job.id id).0 q);
          failures = count-bad-le-done id w.results;
          dated = j.dated;
          closed = j.closed;
        })

  pub update_job_progress-IsSound :
      (id : ℕ) → Keeps (IsSound {R = R} limit) (update_job_progress id)
  unfolding update_job_progress
  update_job_progress-IsSound id = Keeps-call (faults-IsSound limit) _ _ (recount-IsSound id)

  pub mark_job_status-IsSound :
      (id : ℕ) (status : JobStatus) (summary : Option Bytes)
      → status ≢ JobStatus.complete
      → Keeps (IsSound {R = R} limit) (mark_job_status id status summary)
  unfolding mark_job_status
  mark_job_status-IsSound id status summary ne = Keeps-call (faults-IsSound limit) _ _ (λ w.
      updated-IsSound w (has_id id) _ (λ job. refl)
        (λ job q j. record {
          counted = j.counted;
          bounded = j.bounded;
          progress = j.progress;
          failures = j.failures;
          dated = ground arith;
          closed = λ e. absurd (ne e);
        }))

  module _ (id : ℕ) where
    -- Sound tables in which no row of the job is open.
    record IsClosing (w : World R) : Type 0 where
      sound : IsSound limit w
      none_open : count (of_job_in id is_open) w.results ≡ 0

    IsClosing-faults :
        (w : World R) (l : List (Option Bytes)) → IsClosing w → IsClosing (record w { faults = l })
    IsClosing-faults w l h = record {
      sound = faults-IsSound limit w l h.sound;
      none_open = h.none_open;
    }

    close-IsClosing :
        (final : JobStatus)
        → is_final final ≡ true
        → (w : World R) → IsClosing w
        → IsClosing (close id final w)
    unfolding close
    close-IsClosing final h w c = record {
      sound =
          updated-IsSound w (unfinished id) _ (λ job. refl)
            (λ job q j. record {
              counted = j.counted;
              bounded = j.bounded;
              progress = j.progress;
              failures = j.failures;
              dated = sym h;
              closed = λ e.
                  subst (λ k. count (λ r. of_job_in k is_open r) w.results ≡ 0)
                    (sym ((nat_beq_iff job.id id).0 (&&-split _ _ q).0)) c.none_open;
            })
            c.sound;
      none_open = c.none_open;
    }

    finish-IsClosing : (row : Option (SearchJob R)) → Keeps IsClosing (finish id row)
    unfolding finalize
    finish-IsClosing none = Keeps-fails _
    finish-IsClosing (some job) = Keeps-if _ _ _ (Keeps-returns false) (
        Keeps-bind _ _
          (Keeps-call IsClosing-faults _ _
            (close-IsClosing _ (outcome-is_final (job.failed_pairs == job.total_pairs))))
          (λ n. Keeps-returns _))

    counted_open :
        (w : World R)
        → IsSound limit w
        → IsSound limit
            ((if ltb 0 (count (of_job_in id is_open) w.results)
                then returns false
                else (query (codes "read job: ") (λ v. find (has_id id) v.jobs) >>= finish id))
              w).1
    unfolding returns
    counted_open w s = elim (Bool-cases (ltb 0 (count (of_job_in id is_open) w.results))) [
      | inl q ↦ rw q s
      | inr q ↦
          rw q
            ((Keeps-bind _ _ (Keeps-call IsClosing-faults _ _ (λ v h. h)) finish-IsClosing).at w
              (record { sound = s; none_open = ground arith })).sound
    ]

    pub mark_job_complete_if_done-IsSound :
        Keeps (IsSound {R = R} limit) (mark_job_complete_if_done id)
    unfolding mark_job_complete_if_done
    mark_job_complete_if_done-IsSound = Keeps-query (faults-IsSound limit) _ _ _ counted_open
