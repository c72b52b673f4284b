-- ===== src/Worker/Completion/Kept.antt =====
-- Healthy turns keep the job tracked.
use flight_circle_search.Base.{
  List, Option, ℕ, ◌≡◌, refl, sym, subst, [], ◌∷◌, ◌++◌, Bytes, Result, ok, nat_eq,
}
use flight_circle_search.Fares.{FareError}
use flight_circle_search.Jobs.Store.{World, SearchJobArgs}
use flight_circle_search.Jobs.Sound.{IsSound}
use flight_circle_search.Jobs.Sound.Kept.{handlers-IsSound}
use flight_circle_search.Worker.{acquired, work}
use flight_circle_search.Jobs.Sound.Reports.{counted_of_find}
use flight_circle_search.Worker.Turns.{Reach, turn, Turn, after_turn, left_over}
use flight_circle_search.Worker.Kept.{Turn_keeps}
use flight_circle_search.Worker.Outcomes.{Verdict, verdict, work_decides}
use flight_circle_search.Worker.Completion.{
  HealthyTurn, decides, delays, others, Healthy, begin, step, IsTracked,
}
use flight_circle_search.Worker.Completion.Others.{others-IsTracked}
use flight_circle_search.Worker.Completion.Own.{delays-IsTracked, settled-IsTracked, still_open}

module _ {R Fare : Type 0} (encode : List Fare → Option Bytes) (limit : ℕ) where
  Healthy-Turn : (id : ℕ) {w w' : World R} → HealthyTurn encode id w w' → Turn encode w w'
  Healthy-Turn id (decides front back a answer v clock q same h e) =
      turn front back a acquired answer [] clock q e
  Healthy-Turn id (delays front back a wait answer o clock q same h some_left e) =
      turn front back a wait answer [] clock q e
  Healthy-Turn id (others front back a wait answer faults clock q ne e) =
      turn front back a wait answer faults clock q e

  decides-IsTracked :
      (w : World R) (front back : List SearchJobArgs) (a : SearchJobArgs)
      (answer : Result FareError (List Fare)) (v : Verdict) (clock : ℕ)
      → w.queue ≡ front ++ a ∷ back
      → verdict encode answer ≡ ok v
      → IsSound limit w
      → IsTracked a.job_id w
      → IsTracked a.job_id (
          after_turn front back a
            (work encode acquired answer a (record w { faults = []; clock = clock })))
  unfolding left_over
  decides-IsTracked w front back a answer v clock q h s t =
      let (end, results, row) =
        work_decides encode answer a v (record w { faults = []; clock = clock }) t.job refl h
          t.stored (t.active (still_open a v clock w s.one_row t front back q))
          (counted_of_find limit a.job_id w t.job s t.stored) in
      settled-IsTracked a v clock w s.one_row t front back q _ results row (rw end refl)

  Healthy-IsTracked :
      (id : ℕ) {w w' : World R}
      → HealthyTurn encode id w w'
      → IsSound limit w
      → IsTracked id w
      → IsTracked id w'
  Healthy-IsTracked id {w} (decides front back a answer v clock q same h e) s t =
      subst (IsTracked id) (sym e) (
        subst
          (λ k.
            IsTracked k w
            → IsTracked k (
                after_turn front back a
                  (work encode acquired answer a (record w { faults = []; clock = clock }))))
          same (decides-IsTracked w front back a answer v clock q h s) t)
  Healthy-IsTracked id {w} (delays front back a wait answer o clock q same h some_left e) s t =
      subst (IsTracked id) (sym e)
        (delays-IsTracked encode id w front back a wait answer o clock q h some_left t)
  Healthy-IsTracked id {w} (others front back a wait answer faults clock q ne e) s t =
      subst (IsTracked id) (sym e)
        (others-IsTracked id encode w front back a wait answer faults clock q ne t)

  pub Healthy-keeps :
      (id : ℕ) {w w' : World R}
      → Healthy encode id w w'
      → IsSound limit w
      → IsTracked id w
      → Reach encode w w' × IsSound limit w' × IsTracked id w'
  Healthy-keeps id begin s t = (Reach.here, s, t)
  Healthy-keeps id (step r h) s t =
      let (reached, sound, tracked) = Healthy-keeps id r s t in
      (
        Reach.next reached (Healthy-Turn id h),
        Turn_keeps (handlers-IsSound limit) encode (Healthy-Turn id h) sound,
        Healthy-IsTracked id h sound tracked,
      )
