-- ===== src/Worker/Completion/Drains.antt =====
-- The searches of a job can be worked off: each takes one turn.
use flight_circle_search.Worker.Completion.Ends.{submitted_job_ends}
use flight_circle_search.Jobs.Progress.{open_rows}
use flight_circle_search.Base.{
  ℕ, ◌<◌, ◌≤◌, ◌≡◌, ◌≢◌, refl, sym, ap, subst, ◌∙◌, List, [], ◌∷◌, ◌++◌, append_assoc, append-nil,
  Bytes, Option, Result, ok, arith, All, All-append, count, length, nat_eq, ◌==◌, nat_beq_iff,
  Bool-cases, inl, inr, some,
}
use flight_circle_search.Fares.{FareError}
use flight_circle_search.Floats.{Floats}
use flight_circle_search.Jobs.{SearchRequest, SearchJob}
use flight_circle_search.Jobs.Store.{World, SearchJobArgs}
use flight_circle_search.Jobs.Repository.{has_id, find}
use flight_circle_search.Jobs.Service.{
  Service, AirportSource, GeneratedPair, generate_tuples, submit,
}
use flight_circle_search.Jobs.Submit.{submit_steps}
use flight_circle_search.Jobs.Methods.{submit_keeps}
use flight_circle_search.Jobs.Sound.{IsSound}
use flight_circle_search.Jobs.Sound.Kept.{methods-IsSound}
use flight_circle_search.Jobs.Sound.Reports.{counted_of_find}
use flight_circle_search.Worker.{acquired, work}
use flight_circle_search.Worker.Turns.{after_turn, left_over}
use flight_circle_search.Worker.Outcomes.{Verdict, verdict, work_decides}
use flight_circle_search.Worker.Completion.{Healthy, IsTracked, decides, IsEnded}
use flight_circle_search.Worker.Completion.Kept.{Healthy-keeps}
use flight_circle_search.Worker.Completion.Own.{still_open}
use flight_circle_search.Worker.Completion.Start.{submitted-IsTracked}

-- What the provider answers to each search, and the verdict that this is.
pub record IsDecisive {Fare : Type 0} (encode : List Fare → Option Bytes)
    (answers : SearchJobArgs → Result FareError (List Fare)) : Type 0 where
  pub verdict_of : SearchJobArgs → Verdict
  pub decides_it : (a : SearchJobArgs) → verdict encode (answers a) ≡ ok (verdict_of a)

module _ {R Fare : Type 0} (encode : List Fare → Option Bytes) (id : ℕ)
    (answers : SearchJobArgs → Result FareError (List Fare)) where
  -- Turns of searches of the job, each on a store that answers and with the provider's answer to this search.
  pub data Served (w : World R) : World R → Type 0 where
    nothing : Served w w
    serve :
        {v : World R} (front back : List SearchJobArgs) (a : SearchJobArgs) (clock : ℕ)
        → Served w v
        → v.queue ≡ front ++ a ∷ back
        → a.job_id ≡ id
        → Served w (
            after_turn front back a
              (work encode acquired (answers a) a (record v { faults = []; clock = clock })))

  joined : {u v w : World R} → Served u v → Served v w → Served u w
  joined r nothing = r
  joined r (serve front back a clock t q e) = serve front back a clock (joined r t) q e

  pub Served-Healthy :
      IsDecisive encode answers → {w w' : World R} → Served w w' → Healthy encode id w w'
  Served-Healthy good nothing = Healthy.begin
  Served-Healthy good (serve front back a clock t q e) =
      Healthy.step (Served-Healthy good t)
        (decides front back a (answers a) (good.verdict_of a) clock q e (good.decides_it a) refl)

module _ {R Fare : Type 0} (encode : List Fare → Option Bytes) (limit : ℕ) (id : ℕ)
    (answers : SearchJobArgs → Result FareError (List Fare))
    (good : IsDecisive encode answers) where
  -- The turn of the first search of the job: it is taken off the queue.
  one_turn :
      (w : World R) (front back : List SearchJobArgs) (a : SearchJobArgs)
      → w.queue ≡ front ++ a ∷ back
      → a.job_id ≡ id
      → IsSound limit w
      → IsTracked id w
      → (u : World R) × Served encode id answers w u × (u.queue ≡ front ++ back)
  unfolding left_over
  one_turn w front back a q e s t = (
    after_turn front back a
        (work encode acquired (answers a) a (record w { faults = []; clock = w.clock })),
    serve front back a w.clock nothing q e,
    off (subst (λ k. IsTracked k w) (sym e) t),
  )
    where
      off :
          IsTracked a.job_id w
          → (after_turn front back a (
              work encode acquired (answers a) a (record w { faults = []; clock = w.clock }))).queue
            ≡ front ++ back
      off t =
          rw
            (work_decides encode (answers a) a (good.verdict_of a)
              (record w { faults = []; clock = w.clock }) t.job refl (good.decides_it a) t.stored
              (t.active (still_open a (good.verdict_of a) w.clock w s.one_row t front back q))
              (counted_of_find limit a.job_id w t.job s t.stored)).0
            refl

  drain :
      (front rest : List SearchJobArgs) (w : World R)
      → w.queue ≡ front ++ rest
      → All (λ (a : SearchJobArgs). a.job_id ≢ id) front
      → IsSound limit w
      → IsTracked id w
      → (u : World R) × Served encode id answers w u
        × All (λ (a : SearchJobArgs). a.job_id ≢ id) u.queue
  drain front [] w q free s t = (
    w,
    nothing,
    subst (All (λ (a : SearchJobArgs). a.job_id ≢ id)) (sym (q ∙ append-nil front)) free,
  )
  drain front (a ∷ rest) w q free s t = elim (Bool-cases (a.job_id == id)) [
    | inl e ↦
        let (v, r, k) = one_turn w front rest a q ((nat_beq_iff a.job_id id).0 e) s t in
        let (reached, s', t') =
          Healthy-keeps encode limit id (Served-Healthy encode id answers good r) s t in
        let (u, more, over) = drain front rest v k free s' t' in
        (u, joined encode id answers r more, over)
    | inr e ↦
        drain (front ++ a ∷ []) rest w (q ∙ sym (append_assoc front (a ∷ []) rest))
          (All-append (λ (b : SearchJobArgs). b.job_id ≢ id) front (a ∷ []) free
            ((λ h. ground arith), tt))
          s t
  ]

-- The job with this id, of so many pairs, is finished, and none of its rows is open.
abbrev pub HasEnded : {R : Type 0} → ℕ → ℕ → World R → Type 0
HasEnded {R} id total w =
    (job : SearchJob R) × (find (has_id id) w.jobs ≡ some job)
    × IsEnded id w job
    × (job.total_pairs ≡ total)
    × (open_rows id w ≡ 0)

module _ {Fare : Type 0} (fl : Floats) (encode : List Fare → Option Bytes) where
  open fl use {Float}

  -- After a submission with at least one pair and at most the allowed number of pairs, on a store that answers and whose tables are sound, and for a new UUID that no queued search has: if the provider has for each search an answer that decides it, then turns of the job's searches, each with the answer that the provider has for this search and on a store that answers, take every search of the job off the queue, and with that the job is finished, as failed exactly if all its pairs have failed and as complete otherwise, with the counts of its rows, as many pairs as were submitted and no open row.
  pub submitted_job_drains :
      (s : Service) (source : AirportSource Float) (fresh : ℕ) (req : SearchRequest Float)
      (pairs : List GeneratedPair) (answers : SearchJobArgs → Result FareError (List Fare))
      (w : World (SearchRequest Float))
      → IsDecisive encode answers
      → generate_tuples fl source s.hubs req ≡ ok pairs
      → 0 < length pairs
      → length pairs ≤ s.max_pairs
      → w.faults ≡ []
      → IsSound s.max_pairs w
      → count (has_id fresh) w.jobs ≡ 0
      → All (λ (a : SearchJobArgs). (a.job_id ≢ fresh) × (a.result_id < w.next_id)) w.queue
      → (w' : World (SearchRequest Float)) × Served encode fresh answers
          (submit fl s source fresh req w).1
          w'
        × All (λ (a : SearchJobArgs). a.job_id ≢ fresh) w'.queue
        × HasEnded fresh (length pairs) w'
  submitted_job_drains s source fresh req pairs answers w good g many room calm sound free away =
      let owned = sound.owned fresh free in
      let start = submit_steps fl s source fresh req pairs w g room calm free owned in
      let v = (submit fl s source fresh req w).1 in
      let (w', run, over) =
        drain encode s.max_pairs fresh answers good [] v.queue v refl tt
          (submit_keeps fl s (methods-IsSound s.max_pairs) source fresh req w sound)
          (subst (IsTracked fresh) (ap (λ x. x.1) (sym start))
            (submitted-IsTracked fresh req pairs w (calm, free, owned) many away)) in
      (
        w',
        run,
        over,
        submitted_job_ends fl encode s source fresh req pairs w g many room calm sound free away
            (Served-Healthy encode fresh answers good run) over,
      )
