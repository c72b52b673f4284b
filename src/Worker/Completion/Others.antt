-- ===== src/Worker/Completion/Others.antt =====
-- The searches of other jobs.
use flight_circle_search.Base.{
  ℕ, ◌≡◌, ◌≢◌, refl, sym, ap, subst, ◌∙◌, Bool, true, false, Option, none, some, List, ◌∷◌, ◌++◌,
  Bytes, Result, arith, All, All-append, All-append_inv, count, count-append, keep, nat_eq, ◌==◌,
}
use flight_circle_search.Fares.{FareError}
use flight_circle_search.Jobs.{SearchJobResult, is_open, is_done, is_dead, is_failed, SearchJob}
use flight_circle_search.Jobs.Store.{World, SearchJobArgs}
use flight_circle_search.Jobs.Keeps.{
  Keeps, Keeps-call, Keeps-bind, Keeps-if, Keeps-returns, Keeps-fails,
}
use flight_circle_search.Jobs.Repository.{
  update, of_job, of_job_in, update_result, mark_result_dead_letter, recount, close, finalize,
  finish, update_job_progress, mark_job_complete_if_done, find, has_id,
}
use flight_circle_search.Jobs.Tables.{count-update}
use flight_circle_search.Jobs.Sound.Counts.{All-map}
use flight_circle_search.Jobs.Progress.{open_rows, done_rows, bad_rows}
use flight_circle_search.Worker.{Wait, Outcome, work}
use flight_circle_search.Worker.Handled.{SearchKeeps, work_keeps}
use flight_circle_search.Worker.Turns.{HasRow, search-HasRow, after_turn, left_over}
use flight_circle_search.Worker.Completion.{queued, row_of, open_row, IsForeign, IsTracked}
use flight_circle_search.Worker.Completion.Tracks.{
  count_same, keep-update_none, count-left_over_other, left_over-IsForeign,
}

module _ {R : Type 0} (id n : ℕ) (rows : List SearchJobResult) where
  -- The job has the given rows, and `n` is none of them.
  pub record IsApart (w : World R) : Type 0 where
    pub same : keep (of_job id) w.results ≡ rows
    pub none_of : count (row_of id n) w.results ≡ 0

  calm : (w : World R) (l : List (Option Bytes)) → IsApart w → IsApart (record w { faults = l })
  calm w l h = record { same = h.same; none_of = h.none_of }

  rewritten :
      (w : World R) (f : SearchJobResult → SearchJobResult)
      → ((r : SearchJobResult) → (f r).job_id ≡ r.job_id)
      → ((r : SearchJobResult) → (f r).id ≡ r.id)
      → IsApart w
      → IsApart (record w { results = update (λ r. r.id == n) f w.results })
  rewritten w f owner same_id h = record {
    same = keep-update_none id n f w.results owner h.none_of ∙ h.same;
    none_of =
        count-update (row_of id n) (λ r. r.id == n) f w.results (λ r. rw (owner r, same_id r) refl)
        ∙ h.none_of;
  }

  search-IsApart : (k : ℕ) → SearchKeeps IsApart n k
  unfolding update_result mark_result_dead_letter update_job_progress mark_job_complete_if_done
      finalize recount close
  search-IsApart k = record {
    updates = λ fare. Keeps-call calm _ _ (λ w. rewritten w _ (λ r. refl) (λ r. refl));
    buries = λ reason. Keeps-call calm _ _ (λ w. rewritten w _ (λ r. refl) (λ r. refl));
    recounts = Keeps-call calm _ _ (λ w h. record { same = h.same; none_of = h.none_of });
    finishes = Keeps-bind _ _ (Keeps-call calm _ _ (λ w h. h)) (λ m.
        Keeps-if _ _ _ (Keeps-returns false)
          (Keeps-bind _ _ (Keeps-call calm _ _ (λ w h. h)) finished));
  }
    where
      finished : (row : Option (SearchJob R)) → Keeps IsApart (finish k row)
      finished none = Keeps-fails _
      finished (some job) = Keeps-if _ _ _ (Keeps-returns false) (
          Keeps-bind _ _
            (Keeps-call calm _ _ (λ w h. record { same = h.same; none_of = h.none_of }))
            (λ m. Keeps-returns _))

module _ {R : Type 0} (id : ℕ) where
  -- With the same rows of the job, the same row of it and the same queued searches, the job is as far.
  pub same-IsTracked :
      (w u : World R) (t : IsTracked id w)
      → keep (of_job id) u.results ≡ keep (of_job id) w.results
      → find (has_id id) u.jobs ≡ some t.job
      → ((n : ℕ) → count (queued id n) u.queue ≡ count (queued id n) w.queue)
      → All (IsForeign id w.results) u.queue
      → IsTracked id u
  same-IsTracked w u t same row searches foreign =
      let counts =
        λ (p : SearchJobResult → Bool)
            (h : (r : SearchJobResult) → p r ≡ true → of_job id r ≡ true).
          count_same id p w.results u.results h same in
      let opened : open_rows id u ≡ open_rows id w =
        counts (of_job_in id is_open) (λ r h. ground arith) in
      let done : done_rows id u ≡ done_rows id w =
        counts (of_job_in id is_done) (λ r h. ground arith) in
      let dead = counts (of_job_in id is_dead) (λ r h. ground arith) in
      let failed = counts (of_job_in id is_failed) (λ r h. ground arith) in
      let bad : bad_rows id u ≡ bad_rows id w = omega (arith, dead, failed) in
      record {
        job = t.job;
        stored = row;
        matched =
            λ n. searches n ∙ t.matched n ∙ sym (counts (open_row id n) (λ r h. ground arith));
        foreign =
            All-map u.queue foreign
              (λ a m h ne. counts (row_of id a.result_id) (λ r q. ground arith) ∙ h ne);
        active = λ h. t.active (omega (arith, opened));
        ended = λ h.
            let e = t.ended (omega (arith, opened)) in
            record {
              outcome = rw bad e.outcome;
              completed = e.completed ∙ sym done;
              failed = e.failed ∙ sym bad;
              dated = e.dated;
            };
      }

  module _ {Fare : Type 0} (encode : List Fare → Option Bytes) where
    pub others-IsTracked :
        (w : World R) (front back : List SearchJobArgs) (a : SearchJobArgs) (wait : Wait)
        (answer : Result FareError (List Fare)) (faults : List (Option Bytes)) (clock : ℕ)
        → w.queue ≡ front ++ a ∷ back
        → a.job_id ≢ id
        → IsTracked id w
        → IsTracked id (
            after_turn front back a
              (work encode wait answer a (record w { faults = faults; clock = clock })))
    unfolding count
    others-IsTracked w front back a wait answer faults clock q ne t =
        let v : World R = record w { faults = faults; clock = clock } in
        let o : Outcome = (work encode wait answer a v).0 in
        let (before, (here, after)) =
          All-append_inv (IsForeign id w.results) front (a ∷ back)
            (subst (All (IsForeign id w.results)) q t.foreign) in
        let apart =
          work_keeps a (search-IsApart id a.result_id (keep (of_job id) w.results) a.job_id) encode
            wait answer v (record { same = refl; none_of = here ne }) in
        same-IsTracked w _ t apart.same
          (work_keeps {P = HasRow id (some t.job)} a
            (search-HasRow id (some t.job) a.job_id ne a.result_id) encode wait answer v t.stored)
          (λ n. omega (
            arith,
            count-append (queued id n) front (left_over a o ++ back),
            count-append (queued id n) (left_over a o) back,
            count-left_over_other id n a o ne,
            ap (count (queued id n)) q,
            count-append (queued id n) front (a ∷ back),
            unmatched n,
          ))
          (All-append _ front _ before
            (All-append _ (left_over a o) back (left_over-IsForeign id w.results a o here) after))
      where
        unmatched : (n : ℕ) → count (queued id n) (a ∷ back) ≡ count (queued id n) back
        unmatched n = ground arith
