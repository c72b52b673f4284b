-- ===== src/Jobs/Sound/Insertion.antt =====
-- The tables after the inserts of `CreateJob` are sound.
use flight_circle_search.Base.{
  ◌==◌, ℕ, ◌+◌, ◌≤◌, ◌≡◌, refl, false, List, [], ◌∷◌, ◌++◌, Bytes, Option, none, arith, count,
  count-append, length, All-append, nat_eq, ◌==◌, ltb, Bool-cases, inl, inr, nat_beq_iff,
}
use flight_circle_search.Jobs.{SearchJob, SearchJobResult, JobStatus, is_open, is_final, is_done}
use flight_circle_search.Jobs.Store.{World}
use flight_circle_search.Jobs.Repository.{has_id, of_job, of_job_in, copy_rows}
use flight_circle_search.Jobs.Sound.{IsSound, IsSoundJob, is_row}
use flight_circle_search.Jobs.Sound.Counts.{
  All-map, count_mono, count-pos_of_mem, count-copy_rows, count-copy_rows_other,
  count-copy_rows_below, count-copy_rows_above, count-copy_rows_one,
}

module _ {R : Type 0} (limit id : ℕ) (job : SearchJob R) (pairs : List SearchJobResult)
    (w : World R) where
  -- The row that `insert_job` writes.
  abbrev pub row : SearchJob R
  row = record {
    id = id;
    status = JobStatus.pending;
    submitted_at = w.clock;
    completed_at = none;
    total_pairs = job.total_pairs;
    completed_pairs = 0;
    failed_pairs = 0;
    error_summary = none;
    request = job.request;
  }

  module _ (s : IsSound limit w) (total : job.total_pairs ≡ length pairs)
      (room : length pairs ≤ limit) where
    old_job :
        (k : SearchJob R)
        → (id == k.id) ≡ false
        → IsSoundJob limit w.results k
        → IsSoundJob limit (w.results ++ copy_rows id w.next_id pairs) k
    old_job k ne j =
        let none_new = count-copy_rows_other k.id id w.next_id pairs ne in
        record {
          counted = omega (
            arith,
            j.counted,
            none_new,
            count-append (of_job k.id) w.results (copy_rows id w.next_id pairs),
          );
          bounded = j.bounded;
          progress = omega (
            arith,
            j.progress,
            count-append (of_job_in k.id is_done) w.results (copy_rows id w.next_id pairs),
          );
          failures = j.failures;
          dated = j.dated;
          closed = λ q. omega (
            arith,
            j.closed q,
            none_new,
            count-append (of_job_in k.id is_open) w.results (copy_rows id w.next_id pairs),
            count_mono (of_job_in k.id is_open) (of_job k.id) (copy_rows id w.next_id pairs)
                (λ r h. ground arith),
          );
        }

    new_job :
        count (has_id id) w.jobs ≡ 0
        → IsSoundJob limit (w.results ++ copy_rows id w.next_id pairs) row
    unfolding is_final
    new_job free = record {
      counted = omega (
        arith,
        total,
        s.owned id free,
        count-copy_rows id w.next_id pairs,
        count-append (of_job id) w.results (copy_rows id w.next_id pairs),
      );
      bounded = omega (arith, total, room);
      progress = omega arith;
      failures = omega arith;
      dated = refl;
      closed = λ q. cc;
    }

    pub inserted-IsSound :
        (l : List (Option Bytes)) (results : List SearchJobResult) (next_id : ℕ)
        → results ≡ w.results ++ copy_rows id w.next_id pairs
        → next_id ≡ w.next_id + length pairs
        → count (has_id id) w.jobs ≡ 0
        → IsSound limit (record w {
          jobs = w.jobs ++ row ∷ [];
          results = results;
          next_id = next_id;
          faults = l;
        })
    unfolding count
    inserted-IsSound l results next_id same after free = record {
      one_job = λ k. elim (Bool-cases (id == k)) [
        | inl e ↦
            rw (count-append (has_id k) w.jobs (row ∷ []))
              (ground (arith, free, (nat_beq_iff id k).0 e))
        | inr e ↦ rw (count-append (has_id k) w.jobs (row ∷ [])) (ground (arith, s.one_job k))
      ];
      one_row = λ n.
          rw (same, count-append (is_row n) w.results (copy_rows id w.next_id pairs))
            (elim (Bool-cases (ltb n w.next_id)) [
              | inl e ↦
                  omega
                    (arith, s.one_row n, count-copy_rows_below n id w.next_id pairs (ground arith))
              | inr e ↦
                  omega
                    (arith, s.numbered n (ground arith), count-copy_rows_one n id w.next_id pairs)
            ]);
      numbered = λ n q.
          rw (same, count-append (is_row n) w.results (copy_rows id w.next_id pairs))
            (omega (
              arith,
              s.numbered n (omega (arith, after)),
              count-copy_rows_above n id w.next_id pairs (omega (arith, after)),
            ));
      owned = λ k q.
          let parts = count-append (has_id k) w.jobs (row ∷ []) in
          rw (same, count-append (of_job k) w.results (copy_rows id w.next_id pairs))
            (elim (Bool-cases (id == k)) [
              | inl e ↦ ground (arith, parts, q)
              | inr e ↦ omega (
                arith,
                s.owned k (ground (arith, parts, q)),
                count-copy_rows_other k id w.next_id pairs e,
              )
            ]);
      each_job = rw same (
          All-append _ w.jobs (row ∷ [])
            (All-map w.jobs s.each_job
              (λ k m j. old_job k (ground (arith, count-pos_of_mem (has_id id) w.jobs m, free)) j))
            (new_job free, tt));
    }
