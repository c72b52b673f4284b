-- ===== src/Worker/Turns.antt =====
-- The queue: River hands the searches to the handler, one after the other in any order, and puts one
-- back that is snoozed, or that failed and has attempts left. Between two turns time passes, and any
-- failures of the database may lie ahead. A handler runs without interruption.
use flight_circle_search.Base.{
  ◌∙◌, ℕ, ◌-◌, ◌≡◌, refl, sym, subst, ◌≢◌, true, false, Option, none, some, List, [], ◌∷◌, ◌++◌,
  Bytes, Result, arith, All, All-append, leb, if◌then◌else◌, nat_eq, inl, inr, Bool-cases, &&-split,
  All-append_inv,
}
use flight_circle_search.Fares.{FareError}
use flight_circle_search.Jobs.{SearchJob, JobStatus}
use flight_circle_search.Jobs.Store.{World, SearchJobArgs}
use flight_circle_search.Jobs.Keeps.{
  Keeps, Keeps-call, Keeps-returns, Keeps-fails, Keeps-bind, Keeps-if,
}
use flight_circle_search.Jobs.Repository.{
  find, has_id, unfinished, update_result, mark_result_dead_letter, recount, update_job_progress,
  close, finalize, finish, mark_job_complete_if_done,
}
use flight_circle_search.Jobs.Tables.{find-update_other}
use flight_circle_search.Worker.Handled.{SearchKeeps, work_keeps}
use flight_circle_search.Worker.{Wait, Outcome, finished, snoozed, retry, work}

-- What the queue keeps of a search after its turn.
unfoldable pub left_over : SearchJobArgs → Outcome → List SearchJobArgs
left_over a finished = []
left_over a snoozed = a ∷ []
left_over a (retry e) = if leb a.attempts 1 then [] else record a { attempts = a.attempts - 1 } ∷ []

-- The store after a turn: the search is taken off the queue, or put back.
abbrev pub after_turn :
    {R : Type 0} (front back : List SearchJobArgs) (a : SearchJobArgs) → Outcome × World R → World R
after_turn front back a (outcome, v) = record v { queue = front ++ (left_over a outcome ++ back) }

module _ {R Fare : Type 0} (encode : List Fare → Option Bytes) where
  -- One turn: a search of the queue, what the limiter and the provider answer, the failures ahead and the time.
  pub data Turn (w w' : World R) : Type 0 where
    turn :
        (front back : List SearchJobArgs) (a : SearchJobArgs) (wait : Wait)
        (answer : Result FareError (List Fare)) (faults : List (Option Bytes)) (clock : ℕ)
        → w.queue ≡ front ++ a ∷ back
        → w'
          ≡ after_turn front back a
              (work encode wait answer a (record w { faults = faults; clock = clock }))
        → Turn w w'

  pub data Reach (w : World R) : World R → Type 0 where
    here : Reach w w
    next : {v u : World R} → Reach w v → Turn v u → Reach w u

module _ {R : Type 0} (id : ℕ) (row : Option (SearchJob R)) where
  -- The job's row is the given one (or there is none), and no search of the job is queued.
  pub record IsIdle (w : World R) : Type 0 where
    pub row_is : find (has_id id) w.jobs ≡ row
    pub unqueued : All (λ (a : SearchJobArgs). a.job_id ≢ id) w.queue

  -- The job's row is the given one (or there is none).
  abbrev pub HasRow : World R → Type 0
  HasRow w = find (has_id id) w.jobs ≡ row

  module _ (k : ℕ) (ne : k ≢ id) where
    other_id : (job : SearchJob R) → has_id k job ≡ true → has_id id job ≡ false
    other_id job h = ground arith

    recount-HasRow : (w : World R) → HasRow w → HasRow (recount k w)
    unfolding recount
    recount-HasRow w h =
        find-update_other (has_id id) (has_id k) _ w.jobs (λ job. refl) other_id ∙ h

    close-HasRow : (final : JobStatus) (w : World R) → HasRow w → HasRow (close k final w)
    unfolding close
    close-HasRow final w h =
        find-update_other (has_id id) (unfinished k) _ w.jobs (λ job. refl)
          (λ job q. other_id job (&&-split _ _ q).0)
        ∙ h

    finish-HasRow : (found : Option (SearchJob R)) → Keeps HasRow (finish k found)
    unfolding finalize
    finish-HasRow none = Keeps-fails _
    finish-HasRow (some job) = Keeps-if _ _ _ (Keeps-returns false) (
        Keeps-bind _ _ (Keeps-call {P = HasRow} (λ w l h. h) _ _ (close-HasRow _))
          (λ n. Keeps-returns _))

    -- A search of another job leaves the row alone.
    pub search-HasRow : (n : ℕ) → SearchKeeps HasRow n k
    unfolding update_result mark_result_dead_letter update_job_progress mark_job_complete_if_done
    search-HasRow n = record {
      updates = λ fare. Keeps-call {P = HasRow} (λ w l h. h) _ _ (λ w h. h);
      buries = λ reason. Keeps-call {P = HasRow} (λ w l h. h) _ _ (λ w h. h);
      recounts = Keeps-call {P = HasRow} (λ w l h. h) _ _ recount-HasRow;
      finishes =
          Keeps-bind {P = HasRow} _ _ (Keeps-call {P = HasRow} (λ w l h. h) _ _ (λ w h. h)) (λ n.
            Keeps-if _ _ _ (Keeps-returns false)
              (Keeps-bind _ _ (Keeps-call {P = HasRow} (λ w l h. h) _ _ (λ w h. h)) finish-HasRow));
    }

module _ {R Fare : Type 0} (encode : List Fare → Option Bytes) (id : ℕ)
    (row : Option (SearchJob R)) where
  left_over-unqueued :
      (a : SearchJobArgs) (o : Outcome)
      → a.job_id ≢ id
      → All (λ (b : SearchJobArgs). b.job_id ≢ id) (left_over a o)
  unfolding left_over
  left_over-unqueued a finished ne = tt
  left_over-unqueued a snoozed ne = (ne, tt)
  left_over-unqueued a (retry e) ne = elim (Bool-cases (leb a.attempts 1)) [
    | inl q ↦ rw q tt
    | inr q ↦ rw q (ne, tt)
  ]

  Turn-IsIdle : {w w' : World R} → Turn encode w w' → IsIdle id row w → IsIdle id row w'
  Turn-IsIdle {w} (turn front back a wait answer faults clock q e) h =
      let Free = λ (b : SearchJobArgs). b.job_id ≢ id in
      let (before, (ne, after)) =
        All-append_inv Free front (a ∷ back) (subst (All Free) q h.unqueued) in
      let v : World R = record w { faults = faults; clock = clock } in
      subst (IsIdle id row) (sym e) (record {
        row_is =
            work_keeps {P = HasRow id row} a (search-HasRow id row a.job_id ne a.result_id) encode
              wait answer v h.row_is;
        unqueued = All-append Free front _ before (
            All-append Free (left_over a (work encode wait answer a v).0) back
              (left_over-unqueued a (work encode wait answer a v).0 ne) after);
      })

  -- The row of a job of which no search is queued stays as it is, whatever the handlers do: nothing but a search of its own changes a job.
  pub Reach-IsIdle : {w w' : World R} → Reach encode w w' → IsIdle id row w → IsIdle id row w'
  Reach-IsIdle here h = h
  Reach-IsIdle (next r t) h = Turn-IsIdle t (Reach-IsIdle r h)
