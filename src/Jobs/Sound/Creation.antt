-- ===== src/Jobs/Sound/Creation.antt =====
-- `CreateJob` keeps the tables sound: both inserts happen, or neither.
use flight_circle_search.Base.{
  codes, ok, err, Result, ◌==◌, if◌then◌else◌, ℕ, ◌≤◌, ◌≡◌, refl, sym, List, [], ◌∷◌, ◌++◌, Bytes,
  Option, Result, ok, err, arith, count, length, append-nil, nat_eq, ◌==◌, ltb, Bool-cases, inl,
  inr, codes, if◌then◌else◌,
}
use flight_circle_search.Jobs.{SearchJob, SearchJobResult}
use flight_circle_search.Jobs.Store.{
  ◌>>=◌, ◌>>◌, returns, RepoError, World, RepoError, returns, fails, ◌>>=◌, ◌>>◌,
}
use flight_circle_search.Jobs.Keeps.{Keeps}
use flight_circle_search.Jobs.Repository.{
  statement, rolled_back, has_id, copy_rows, insert_job, insert_results, in_transaction, create_job,
}
use flight_circle_search.Jobs.Sound.{IsSound}
use flight_circle_search.Jobs.Sound.Insertion.{row, inserted-IsSound}
use flight_circle_search.Jobs.Sound.Ends.{Final, Ends-returns, Ends, Ends-call, Ends-bind}
use flight_circle_search.Jobs.Sound.Rows.{faults-IsSound}

append-copy_rows_nil :
    (id n : ℕ) (rs ps : List SearchJobResult) → length ps ≡ 0 → rs ++ copy_rows id n ps ≡ rs
unfolding copy_rows
append-copy_rows_nil id n rs [] h = append-nil rs
append-copy_rows_nil id n rs (p ∷ ps) h = ground (arith, h)

module _ {R : Type 0} (limit id : ℕ) (job : SearchJob R) (pairs : List SearchJobResult)
    (w : World R) where
  -- Only the failures ahead differ.
  abbrev IsBegun : World R → Type 0
  IsBegun v = (l : List (Option Bytes)) × (v ≡ record w { faults = l })

  abbrev IsInserted : World R → Type 0
  IsInserted v =
      (l : List (Option Bytes)) × (v
        ≡ record w { jobs = w.jobs ++ row limit id job pairs w ∷ []; faults = l })
      × (count (has_id id) w.jobs ≡ 0)

  abbrev IsLater : World R → Type 0
  IsLater v = w.next_id ≤ v.next_id

  module _ (s : IsSound limit w) (total : job.total_pairs ≡ length pairs)
      (room : length pairs ≤ limit) where
    insert_job-Ends : (v : World R) → IsBegun v → Ends IsInserted IsLater (insert_job id job) v
    unfolding insert_job fails
    insert_job-Ends v (l, e) = record {
      at = elim (Bool-cases (ltb 0 (count (has_id id) w.jobs))) [
        | inl q ↦ rw (e, q) (omega arith)
        | inr q ↦ rw (e, q) (Ends-call _ _ _ (λ k. (k, refl, ground arith)) (λ k. omega arith)).at
      ];
    }

    abbrev IsStored : World R → Type 0
    IsStored v = IsSound limit v × IsLater v

    insert_results-Ends :
        (v : World R) → IsInserted v → Ends IsStored IsLater (insert_results id pairs) v
    unfolding insert_results returns
    insert_results-Ends v (l, e, free) = record {
      at = rw e (elim (Bool-cases (ltb 0 (length pairs))) [
        | inl q ↦
            rw q
              (Ends-call _ _ _
                (λ k. (
                  inserted-IsSound limit id job pairs w s total room k _ _ refl refl free,
                  omega arith,
                ))
                (λ k. omega arith)).at
        | inr q ↦ rw q (
          inserted-IsSound limit id job pairs w s total room l w.results w.next_id
              (sym (append-copy_rows_nil id w.next_id w.results pairs (ground arith)))
              (ground arith) free,
          omega arith,
        )
      ]);
    }

    transaction-Ends :
        Ends IsStored IsLater
          (do
            statement (codes "begin tx: ") (λ v. v)
            a ← do insert_job id job; insert_results id pairs; returns id
            statement (codes "commit: ") (λ v. v)
            returns a)
          w
    transaction-Ends =
        Ends-bind {M = IsBegun} _ _ w (Ends-call _ _ w (λ l. (l, refl)) (λ l. omega arith))
          (λ _ v h.
            Ends-bind {M = IsStored} _ _ v
              (Ends-bind {M = IsInserted} _ _ v (insert_job-Ends v h) (λ _ u k.
                Ends-bind {M = IsStored} _ _ u (insert_results-Ends u k)
                  (λ _ x j. Ends-returns id x j)))
              (λ a u (k, later).
                Ends-bind {M = IsStored} _ _ u
                  (Ends-call _ _ u (λ l. (faults-IsSound limit u l k, later)) (λ l. later))
                  (λ _ x j. Ends-returns a x j)))

    undone-IsSound :
        {A : Type 0} (p : Result RepoError A × World R)
        → Final IsStored IsLater p
        → IsSound limit (rolled_back w p).1
    undone-IsSound (ok a, v) (h, _) = h
    undone-IsSound (err e, v) later = record {
      one_job = s.one_job;
      one_row = s.one_row;
      numbered = λ n q. s.numbered n (omega (arith, later, q));
      owned = s.owned;
      each_job = s.each_job;
    }

module _ {R : Type 0} (limit : ℕ) where
  pub create_job-IsSound :
      (fresh : ℕ) (job : SearchJob R) (pairs : List SearchJobResult)
      → job.total_pairs ≡ length pairs
      → length pairs ≤ limit
      → Keeps (IsSound {R = R} limit) (create_job fresh job pairs)
  unfolding create_job in_transaction
  create_job-IsSound fresh job pairs total room = record {
    at = λ w s.
        let id = if job.id == 0 then fresh else job.id in
        undone-IsSound limit id job pairs w s total room _
          (transaction-Ends limit id job pairs w s total room).at;
  }
