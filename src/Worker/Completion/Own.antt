-- ===== src/Worker/Completion/Own.antt =====
-- The searches of the job itself.
use flight_circle_search.Base.{
  ℕ, ◌+◌, ◌<◌, ◌≤◌, ◌≡◌, refl, ap, subst, ◌∙◌, Option, some, List, [], ◌∷◌, ◌++◌, Bytes, Result,
  arith, All, All-append, All-append_inv, count, count-append, length, nat_eq, ◌==◌, nat_beq_iff,
  Bool-cases, inl, inr, if◌then◌else◌,
}
use flight_circle_search.Fares.{FareError}
use flight_circle_search.Jobs.{SearchJobResult, is_open}
use flight_circle_search.Jobs.Store.{World, SearchJobArgs}
use flight_circle_search.Jobs.Repository.{update, of_job_in, find, has_id}
use flight_circle_search.Jobs.Sound.{is_row}
use flight_circle_search.Jobs.Sound.Counts.{count_mono, All-map}
use flight_circle_search.Jobs.Progress.{open_rows, settled}
use flight_circle_search.Worker.{Wait, Outcome, work}
use flight_circle_search.Worker.Turns.{after_turn, left_over}
use flight_circle_search.Worker.Outcomes.{Verdict, pending_outcome, judged, decided, work_undecided}
use flight_circle_search.Worker.Completion.{queued, open_row, IsForeign, IsTracked}
use flight_circle_search.Worker.Completion.Tracks.{
  count-judged, count-judged_other, count-row_judged, count-left_over, left_over-IsForeign,
}
use flight_circle_search.Worker.Completion.Others.{same-IsTracked}

module _ {R Fare : Type 0} (encode : List Fare → Option Bytes) where
  pub delays-IsTracked :
      (id : ℕ) (w : World R) (front back : List SearchJobArgs) (a : SearchJobArgs) (wait : Wait)
      (answer : Result FareError (List Fare)) (o : Outcome) (clock : ℕ)
      → w.queue ≡ front ++ a ∷ back
      → pending_outcome encode wait answer ≡ some o
      → 0 < length (left_over a o)
      → IsTracked id w
      → IsTracked id (
          after_turn front back a
            (work encode wait answer a (record w { faults = []; clock = clock })))
  delays-IsTracked id w front back a wait answer o clock q h some_left t =
      let (before, (here, after)) =
        All-append_inv (IsForeign id w.results) front (a ∷ back)
          (subst (All (IsForeign id w.results)) q t.foreign) in
      rw (work_undecided encode wait answer a (record w { faults = []; clock = clock }) o h) (
        same-IsTracked id w _ t refl t.stored
          (λ n. omega (
            arith,
            count-append (queued id n) front (left_over a o ++ back),
            count-append (queued id n) (left_over a o) back,
            count-left_over id n a o some_left,
            ap (count (queued id n)) q,
            count-append (queued id n) front (a ∷ back),
            count-append (queued id n) (a ∷ []) back,
          ))
          (All-append _ front _ before
            (All-append _ (left_over a o) back (left_over-IsForeign id w.results a o here) after)))

module _ {R : Type 0} (a : SearchJobArgs) (v : Verdict) (now : ℕ) (w : World R)
    (one : (n : ℕ) → count (is_row n) w.results ≤ 1) (t : IsTracked a.job_id w)
    (front back : List SearchJobArgs) (q : w.queue ≡ front ++ a ∷ back) where
  abbrev after : List SearchJobResult
  after = update (λ r. r.id == a.result_id) (judged now v) w.results

  taken_off :
      (n : ℕ)
      → count (queued a.job_id n) w.queue
        ≡ count (queued a.job_id n) (front ++ back) + (if a.result_id == n then 1 else 0)
  unfolding count
  taken_off n = rw q (
      ground (
        arith,
        count-append (queued a.job_id n) front (a ∷ back),
        count-append (queued a.job_id n) front back,
      ))

  -- The search was for an open row, the only one of its number.
  was_open : count (open_row a.job_id a.result_id) w.results ≡ 1
  was_open = ground (
    arith,
    t.matched a.result_id,
    taken_off a.result_id,
    one a.result_id,
    count_mono (open_row a.job_id a.result_id) (is_row a.result_id) w.results (λ r h. ground arith),
  )

  pub still_open : 0 < open_rows a.job_id w
  still_open = omega (
    arith,
    was_open,
    count_mono (open_row a.job_id a.result_id) (of_job_in a.job_id is_open) w.results
        (λ r h. ground arith),
  )

  matched_after :
      (n : ℕ) → count (queued a.job_id n) (front ++ back) ≡ count (open_row a.job_id n) after
  matched_after n = elim (Bool-cases (a.result_id == n)) [
    | inl e ↦ ground (
      arith,
      (nat_beq_iff a.result_id n).0 e,
      was_open,
      t.matched n,
      taken_off n,
      count-judged a.job_id a.result_id now v w.results,
    )
    | inr e ↦ ground (
      arith,
      e,
      t.matched n,
      taken_off n,
      count-judged_other a.job_id a.result_id n now v w.results e,
    )
  ]

  IsForeign-after : All (IsForeign a.job_id after) (front ++ back)
  IsForeign-after =
      let (before, (here, later)) =
        All-append_inv (IsForeign a.job_id w.results) front (a ∷ back)
          (subst (All (IsForeign a.job_id w.results)) q t.foreign) in
      All-map (front ++ back) (All-append _ front back before later)
        (λ b m h ne. count-row_judged a.job_id a.result_id b.result_id now v w.results ∙ h ne)

  -- The store after the turn, by what it has of the job.
  pub settled-IsTracked :
      (u : World R)
      → u.results ≡ after
      → find (has_id a.job_id) u.jobs
        ≡ some (settled a.job_id (decided a v (record w { clock = now })) t.job)
      → u.queue ≡ front ++ back
      → IsTracked a.job_id u
  settled-IsTracked u same row queue = record {
    job = settled a.job_id (decided a v (record w { clock = now })) t.job;
    stored = row;
    matched = λ n. rw (same, queue) (matched_after n);
    foreign = rw (same, queue) IsForeign-after;
    active = λ h. ground (arith, same, t.active still_open);
    ended = λ h. rw same (ground (arith, same, h));
  }
