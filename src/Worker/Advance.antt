-- ===== src/Worker/Advance.antt =====
-- What the handlers of internal/worker/fareworker.go may change of a job.
use flight_circle_search.Base.{
  ℕ, ◌≤◌, ◌≡◌, refl, ◌∙◌, ap, Bool, true, false, List, Bytes, Option, none, some, arith, All-at,
  nat_eq, nat_beq_iff, Bool-cases, inl, inr,
}
use flight_circle_search.Jobs.{SearchJob, JobStatus, RowStatus, is_active, is_final}
use flight_circle_search.Jobs.Store.{Exec, World}
use flight_circle_search.Jobs.Keeps.{
  Keeps, Keeps-call, Keeps-bind, Keeps-if, Keeps-returns, Keeps-fails,
}
use flight_circle_search.Jobs.Repository.{
  find, update, has_id, unfinished, recount, update_job_progress, close, finalize, finish,
  mark_job_complete_if_done, update_result, mark_result_dead_letter,
}
use flight_circle_search.Jobs.Tables.{find-update, map_option, changed}
use flight_circle_search.Jobs.Methods.{HandlersKeep}
use flight_circle_search.Jobs.Sound.{IsSound, IsSoundJob}
use flight_circle_search.Jobs.Sound.Reports.{mem_find}
use flight_circle_search.Jobs.Sound.Writes.{recount-IsSound}
use flight_circle_search.Jobs.Sound.Kept.{handlers-IsSound}
use flight_circle_search.Worker.Turns.{Reach}
use flight_circle_search.Worker.Kept.{Reach_keeps}

-- The same submission with no less progress; if it was finished, with the same outcome, at the same time.
pub record IsAdvance {R : Type 0} (job job' : SearchJob R) : Type 0 where
  pub same_id : job'.id ≡ job.id
  pub same_request : job'.request ≡ job.request
  pub same_total : job'.total_pairs ≡ job.total_pairs
  pub same_start : job'.submitted_at ≡ job.submitted_at
  pub progress : job.completed_pairs ≤ job'.completed_pairs
  pub same_end :
      is_final job.status ≡ true
      → (job'.status ≡ job.status) × (job'.completed_at ≡ job.completed_at)

IsAdvance-refl : {R : Type 0} (job : SearchJob R) → IsAdvance job job
IsAdvance-refl job = record {
  same_id = refl;
  same_request = refl;
  same_total = refl;
  same_start = refl;
  progress = omega arith;
  same_end = λ q. (refl, refl);
}

IsAdvance-trans : {R : Type 0} (a b c : SearchJob R) → IsAdvance a b → IsAdvance b c → IsAdvance a c
IsAdvance-trans a b c h k = record {
  same_id = k.same_id ∙ h.same_id;
  same_request = k.same_request ∙ h.same_request;
  same_total = k.same_total ∙ h.same_total;
  same_start = k.same_start ∙ h.same_start;
  progress = omega (arith, h.progress, k.progress);
  same_end = λ q.
      let (s, t) = h.same_end q in
      let (s', t') = k.same_end (ap is_final s ∙ q) in (s' ∙ s, t' ∙ t);
}

not_active : (s : JobStatus) → is_final s ≡ true → is_active s ≡ false
unfolding is_final is_active
not_active JobStatus.pending h = cc
not_active JobStatus.running h = cc
not_active JobStatus.complete h = refl
not_active JobStatus.failed h = refl

module _ {R : Type 0} (job : SearchJob R) where
  -- The job's row is there, further on.
  pub record IsAhead (w : World R) : Type 0 where
    pub now : SearchJob R
    pub stored : find (has_id job.id) w.jobs ≡ some now
    pub advance : IsAdvance job now

  calm : (w : World R) (l : List (Option Bytes)) → IsAhead w → IsAhead (record w { faults = l })
  calm w l h = record { now = h.now; stored = h.stored; advance = h.advance }

  updated-IsAhead :
      (w : World R) (p : SearchJob R → Bool) (f : SearchJob R → SearchJob R)
      → ((j : SearchJob R) → (f j).id ≡ j.id)
      → ((j : SearchJob R) → find (has_id job.id) w.jobs ≡ some j → p j ≡ true → IsAdvance j (f j))
      → IsAhead w
      → IsAhead (record w { jobs = update p f w.jobs })
  updated-IsAhead w p f same further h = record {
    now = changed p f h.now;
    stored =
        find-update (has_id job.id) p f w.jobs (λ j. rw (same j) refl)
        ∙ ap (map_option (changed p f)) h.stored;
    advance = elim (Bool-cases (p h.now)) [
      | inl q ↦ rw q (IsAdvance-trans job h.now (f h.now) h.advance (further h.now h.stored q))
      | inr q ↦ rw q h.advance
    ];
  }

  close-IsAhead : (k : ℕ) (final : JobStatus) (w : World R) → IsAhead w → IsAhead (close k final w)
  unfolding close
  close-IsAhead k final w =
      updated-IsAhead w (unfinished k) _ (λ j. refl)
        (λ j found q. record {
          same_id = refl;
          same_request = refl;
          same_total = refl;
          same_start = refl;
          progress = omega arith;
          same_end = λ e. ground (arith, not_active j.status e);
        })

  finish-IsAhead : (k : ℕ) (row : Option (SearchJob R)) → Keeps IsAhead (finish k row)
  unfolding finalize
  finish-IsAhead k none = Keeps-fails _
  finish-IsAhead k (some j) =
      Keeps-if _ _ _ (Keeps-returns false)
        (Keeps-bind _ _ (Keeps-call calm _ _ (close-IsAhead k _)) (λ n. Keeps-returns _))

  mark_job_complete_if_done-IsAhead : (k : ℕ) → Keeps IsAhead (mark_job_complete_if_done k)
  unfolding mark_job_complete_if_done
  mark_job_complete_if_done-IsAhead k = Keeps-bind _ _ (Keeps-call calm _ _ (λ w h. h)) (λ n.
      Keeps-if _ _ _ (Keeps-returns false)
        (Keeps-bind _ _ (Keeps-call calm _ _ (λ w h. h)) (finish-IsAhead k)))

  update_result-IsAhead :
      (n : ℕ) (s : RowStatus) (fare : Bytes) (msg : Option Bytes)
      → Keeps IsAhead (update_result n s fare msg)
  unfolding update_result
  update_result-IsAhead n s fare msg =
      Keeps-call calm _ _ (λ w h. record { now = h.now; stored = h.stored; advance = h.advance })

  mark_result_dead_letter-IsAhead :
      (n : ℕ) (msg : Bytes) → Keeps IsAhead (mark_result_dead_letter n msg)
  unfolding mark_result_dead_letter
  mark_result_dead_letter-IsAhead n msg =
      Keeps-call calm _ _ (λ w h. record { now = h.now; stored = h.stored; advance = h.advance })

  module _ (limit : ℕ) where
    abbrev IsFurther : World R → Type 0
    IsFurther w = IsSound limit w × IsAhead w

    recount-IsFurther : (k : ℕ) (w : World R) → IsFurther w → IsFurther (recount k w)
    unfolding recount
    recount-IsFurther k w (s, h) = (
      recount-IsSound limit k w s,
      updated-IsAhead w (has_id k) _ (λ j. refl)
          (λ j found q. record {
            same_id = refl;
            same_request = refl;
            same_total = refl;
            same_start = refl;
            progress = ground (
              arith,
              (nat_beq_iff j.id k).0 q,
              (All-at (IsSoundJob limit w.results) w.jobs s.each_job
                  (mem_find (has_id job.id) w.jobs j found)).progress,
            );
            same_end = λ e. (refl, refl);
          })
          h,
    )

    both :
        {A : Type 0} (m : Exec R A)
        → Keeps (IsSound {R = R} limit) m
        → Keeps IsAhead m
        → Keeps IsFurther m
    both m k j = record { at = λ w h. (k.at w h.0, j.at w h.1) }

    handlers-IsFurther : HandlersKeep IsFurther
    unfolding update_job_progress
    handlers-IsFurther =
        let sound : HandlersKeep (IsSound {R = R} limit) = handlers-IsSound limit in
        record {
          elsewhere = λ w queue clock faults (s, h). (
            sound.elsewhere w queue clock faults s,
            record { now = h.now; stored = h.stored; advance = h.advance },
          );
          updates = λ n fare. both _ (sound.updates n fare) (update_result-IsAhead n _ fare none);
          buries =
              λ n reason. both _ (sound.buries n reason) (mark_result_dead_letter-IsAhead n reason);
          recounts = λ id. record { at = (update_job_progress-IsFurther id).at };
          finishes = λ id. both _ (sound.finishes id) (mark_job_complete_if_done-IsAhead id);
        }
      where
        update_job_progress-IsFurther : (k : ℕ) → Keeps IsFurther (update_job_progress k)
        update_job_progress-IsFurther k =
            Keeps-call
              (λ w l (s, h). ((handlers-IsSound limit).elsewhere w w.queue w.clock l s, calm w l h))
              _ _ (recount-IsFurther k)

-- In sound tables, whatever turns the handlers take, with any answers and failures, a job stays stored with the same request, number of pairs and time of submission, and the number of its pairs that are recorded as completed never falls; once it is finished, its outcome and its time of completion never change.
pub Reach-IsAhead :
    {R Fare : Type 0} (encode : List Fare → Option Bytes) (limit : ℕ) (job : SearchJob R)
    {w w' : World R}
    → Reach encode w w'
    → IsSound limit w
    → find (has_id job.id) w.jobs ≡ some job
    → IsAhead job w'
Reach-IsAhead encode limit job r s h =
    (Reach_keeps (handlers-IsFurther job limit) encode r
      (s, record { now = job; stored = h; advance = IsAdvance-refl job })).1
