-- ===== src/Worker/Kept.antt =====
-- What the repository's methods keep, the handler of internal/worker/fareworker.go keeps, and the sweep
-- of internal/worker/retention.go.
use flight_circle_search.Base.{ℕ, List, Bytes, Option, Result, ok, err, ◌-◌}
use flight_circle_search.Jobs.Store.{World, RepoError}
use flight_circle_search.Jobs.Methods.{HandlersKeep, MethodsKeep}
use flight_circle_search.Worker.Handled.{SearchKeeps, work_keeps}
use flight_circle_search.Worker.Turns.{Turn, turn, Reach}
use flight_circle_search.Worker.Retention.{retention_work, swept, retention_window}

-- The handlers' writes, for one of their searches.
abbrev pub search_of :
    {R : Type 0} {P : World R → Type 0} → HandlersKeep P → (n id : ℕ) → SearchKeeps P n id
search_of k n id = record {
  updates = k.updates n;
  buries = k.buries n;
  recounts = k.recounts id;
  finishes = k.finishes id;
}

module _ {R : Type 0} {P : World R → Type 0} (k : HandlersKeep P) where
  module _ {Fare : Type 0} (encode : List Fare → Option Bytes) where
    pub Turn_keeps : {w w' : World R} → Turn encode w w' → P w → P w'
    Turn_keeps {w} (turn front back a wait answer faults clock q e) h = rw e (
        k.elsewhere _ _ _ _ (
          work_keeps a (search_of k a.result_id a.job_id) encode wait answer _
            (k.elsewhere w w.queue clock faults h)))

    pub Reach_keeps : {w w' : World R} → Reach encode w w' → P w → P w'
    Reach_keeps Reach.here h = h
    Reach_keeps (Reach.next r t) h = Turn_keeps t (Reach_keeps r h)

module _ {R : Type 0} {P : World R → Type 0} {limit : ℕ} (k : MethodsKeep P limit) where
  swept_keeps : (p : Result RepoError ℕ × World R) → P p.1 → P (swept p).1
  swept_keeps (err e, w) h = h
  swept_keeps (ok n, w) h = h

  pub retention_work_keeps_all : (now : ℕ) (w : World R) → P w → P (retention_work now w).1
  unfolding retention_work
  retention_work_keeps_all now w h = swept_keeps _ ((k.deletes (now - retention_window)).at w h)
