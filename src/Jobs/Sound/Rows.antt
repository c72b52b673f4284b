-- ===== src/Jobs/Sound/Rows.antt =====
-- The statements that write results keep the tables sound.
use flight_circle_search.Base.{
  ℕ, ◌≤◌, ◌≡◌, refl, ◌∙◌, Bool, false, List, Bytes, Option, arith, count, nat_eq,
}
use flight_circle_search.Jobs.{SearchJobResult, RowStatus, is_open, is_pending}
use flight_circle_search.Jobs.Store.{World}
use flight_circle_search.Jobs.Keeps.{Keeps, Keeps-call}
use flight_circle_search.Jobs.Repository.{
  update, of_job, of_job_in, claim_first, claim_next_result, update_result, mark_result_dead_letter,
}
use flight_circle_search.Jobs.Tables.{count-update, count-done-open}
use flight_circle_search.Jobs.Sound.{IsSound, is_row}
use flight_circle_search.Jobs.Sound.Counts.{count-update-le, count-claim_first, All-map}

-- The same rows with other contents: the ids and the owners are as they were, and no row of a job is reopened.
pub record IsRewrite (rs rs' : List SearchJobResult) : Type 0 where
  pub owners : (id : ℕ) → count (of_job id) rs' ≡ count (of_job id) rs
  pub ids : (n : ℕ) → count (is_row n) rs' ≡ count (is_row n) rs
  pub opened : (id : ℕ) → count (of_job_in id is_open) rs' ≤ count (of_job_in id is_open) rs

update-IsRewrite :
    (p : SearchJobResult → Bool) (f : SearchJobResult → SearchJobResult) (rs : List SearchJobResult)
    → ((r : SearchJobResult) → (f r).id ≡ r.id)
    → ((r : SearchJobResult) → (f r).job_id ≡ r.job_id)
    → ((r : SearchJobResult) → is_open (f r).status ≡ false)
    → IsRewrite rs (update p f rs)
update-IsRewrite p f rs ids owners closed = record {
  owners = λ id. count-update (of_job id) p f rs (λ r. rw (owners r) refl);
  ids = λ n. count-update (is_row n) p f rs (λ r. rw (ids r) refl);
  opened = λ id. count-update-le (of_job_in id is_open) p f rs (λ r h. ground (arith, closed r));
}

claim_first-IsRewrite :
    (id now : ℕ) (rs : List SearchJobResult) → IsRewrite rs (claim_first id now rs).1
unfolding is_open is_pending
claim_first-IsRewrite id now rs = record {
  owners = λ k. count-claim_first (of_job k) id now rs (λ r h. refl);
  ids = λ n. count-claim_first (is_row n) id now rs (λ r h. refl);
  opened =
      λ k. omega (arith, count-claim_first (of_job_in k is_open) id now rs (λ r h. ground arith));
}

module _ {R : Type 0} (limit : ℕ) where
  rewritten-IsSound :
      (w : World R) (rs : List SearchJobResult)
      → IsRewrite w.results rs
      → IsSound limit w
      → IsSound limit (record w { results = rs })
  rewritten-IsSound w rs h s = record {
    one_job = s.one_job;
    one_row = λ n. omega (arith, h.ids n, s.one_row n);
    numbered = λ n q. h.ids n ∙ s.numbered n q;
    owned = λ id q. h.owners id ∙ s.owned id q;
    each_job = All-map w.jobs s.each_job (λ job m j. record {
      counted = omega (arith, j.counted, h.owners job.id);
      bounded = j.bounded;
      progress = omega (
        arith,
        j.progress,
        h.owners job.id,
        h.opened job.id,
        count-done-open job.id w.results,
        count-done-open job.id rs,
      );
      failures = j.failures;
      dated = j.dated;
      closed = λ q. omega (arith, h.opened job.id, j.closed q);
    });
  }

  pub faults-IsSound :
      (w : World R) (l : List (Option Bytes))
      → IsSound limit w
      → IsSound limit (record w { faults = l })
  faults-IsSound w l s = record {
    one_job = s.one_job;
    one_row = s.one_row;
    numbered = s.numbered;
    owned = s.owned;
    each_job = s.each_job;
  }

  pub update_result-IsSound :
      (n : ℕ) (status : RowStatus) (fare : Bytes) (msg : Option Bytes)
      → is_open status ≡ false
      → Keeps (IsSound {R = R} limit) (update_result n status fare msg)
  unfolding update_result
  update_result-IsSound n status fare msg h = Keeps-call faults-IsSound _ _ (λ w s.
      rewritten-IsSound w _ (update-IsRewrite _ _ w.results (λ r. refl) (λ r. refl) (λ r. h)) s)

  pub mark_result_dead_letter-IsSound :
      (n : ℕ) (msg : Bytes) → Keeps (IsSound {R = R} limit) (mark_result_dead_letter n msg)
  unfolding mark_result_dead_letter is_open
  mark_result_dead_letter-IsSound n msg = Keeps-call faults-IsSound _ _ (λ w s.
      rewritten-IsSound w _ (update-IsRewrite _ _ w.results (λ r. refl) (λ r. refl) (λ r. refl)) s)

  pub claim_next_result-IsSound : (id : ℕ) → Keeps (IsSound {R = R} limit) (claim_next_result id)
  unfolding claim_next_result
  claim_next_result-IsSound id =
      Keeps-call faults-IsSound _ _
        (λ w s. rewritten-IsSound w _ (claim_first-IsRewrite id w.clock w.results) s)
