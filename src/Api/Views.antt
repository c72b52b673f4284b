-- ===== src/Api/Views.antt =====
-- What a GET reads of a job that was just submitted.
use flight_circle_search.Jobs.Tables.{
  keep-append_of_none, find-update, find-append, find-none_of_count,
}
use flight_circle_search.Jobs.Store.{World, call, returns}
use flight_circle_search.Jobs.Submit.{submitted as accepted, fresh_job, length-to_results}
use flight_circle_search.Api.{to_result_response, ResultResponse}
use flight_circle_search.Jobs.Repository.{copy_rows, has_id, of_job, find, get_job, list_results}
use flight_circle_search.Jobs.Service.{GeneratedPair, to_results}
use flight_circle_search.Base.{
  nat_beq_refl, ℕ, suc, ◌≡◌, refl, ap, ◌∙◌, none, some, List, [], ◌∷◌, ◌++◌, map, codes, ok, length,
  count, keep, nat_eq, bytes_eq, arith, nat_beq_refl,
}
use flight_circle_search.Jobs.{JobStatus, SearchJob, SearchJobResult}

-- The view of the row of a pair that was just submitted.
abbrev pub row_view : GeneratedPair → ResultResponse
row_view p = record {
  origin = p.origin;
  destination = p.destination;
  departure_date = p.date;
  status = codes "pending";
  fare = none;
  error = none;
}

pub views :
    (id n : ℕ) (pairs : List GeneratedPair)
    → map to_result_response (copy_rows id n (to_results pairs)) ≡ map row_view pairs
unfolding to_results copy_rows to_result_response
views id n [] = refl
views id n (p ∷ pairs) = ap (λ rows. row_view p ∷ rows) (views id (suc n) pairs)

pub kept_rows :
    (id n : ℕ) (ps : List SearchJobResult)
    → keep (of_job id) (copy_rows id n ps) ≡ copy_rows id n ps
unfolding keep copy_rows
kept_rows id n [] = refl
kept_rows id n (p ∷ ps) = ground (arith, kept_rows id (suc n) ps)

module _ {R : Type 0} (fresh : ℕ) where
  abbrev pub IsFresh : World R → Type 0
  IsFresh w =
      (w.faults ≡ []) × (count (has_id fresh) w.jobs ≡ 0) × (count (of_job fresh) w.results ≡ 0)

  pub found_fresh :
      (req : R) (pairs : List GeneratedPair) (v : World (R))
      → IsFresh v
      → find (has_id fresh) (accepted fresh req pairs v).jobs
        ≡ some (record (fresh_job fresh req (length pairs) v.clock) { status = JobStatus.running })
  found_fresh req pairs v (f, a, b) =
      let job = fresh_job fresh req (length (to_results pairs)) v.clock in
      find-update (has_id fresh) (has_id fresh) _ (v.jobs ++ job ∷ []) (λ x. refl)
      ∙ rw
          (
            find-append (has_id fresh) v.jobs job (find-none_of_count _ _ a) (nat_beq_refl fresh),
            nat_beq_refl fresh,
            length-to_results fresh req pairs,
          )
          refl

  pub kept_fresh :
      (req : R) (pairs : List GeneratedPair) (v : World (R))
      → IsFresh v
      → keep (of_job fresh) (accepted fresh req pairs v).results
        ≡ copy_rows fresh v.next_id (to_results pairs)
  kept_fresh req pairs v (f, a, b) =
      keep-append_of_none (of_job fresh) (of_job fresh) v.results _ b (λ r q. q)
      ∙ kept_rows fresh v.next_id (to_results pairs)

  pub got_job :
      (job : SearchJob R) (v : World R)
      → v.faults ≡ []
      → find (has_id fresh) v.jobs ≡ some job
      → get_job fresh v ≡ (ok job, v)
  unfolding get_job call returns
  got_job job v h q = ground arith

  pub listed_rows :
      (v : World R) → v.faults ≡ [] → list_results fresh v ≡ (ok (keep (of_job fresh) v.results), v)
  unfolding list_results call
  listed_rows v h = ground arith
