-- ===== src/Jobs/Keeps.antt =====
-- Invariants of actions on the store: rules for a property of stores that does not depend on the
-- failures to come, one for each way in which actions are composed.
use flight_circle_search.Base.{
  Bool, true, false, Option, none, some, List, [], ◌∷◌, Bytes, Result, ok, err, if◌then◌else◌,
}
use flight_circle_search.Jobs.Repository.{query}
use flight_circle_search.Jobs.Store.{
  World, RepoError, Exec, call, fails, returns, ◌>>=◌, attempt, proceed,
}

pub record Keeps {R A : Type 0} (P : World R → Type 0) (m : Exec R A) : Type 0 where
  pub at : (w : World R) → P w → P (m w).1

abbrev pub Steady : {R : Type 0} → (World R → Type 0) → Type 0
Steady {R} P = (w : World R) (faults : List (Option Bytes)) → P w → P (record w { faults = faults })

module _ {R : Type 0} {P : World R → Type 0} where
  pub Keeps-call :
      {A : Type 0} (steady : Steady P) (context : Bytes) (f : World R → A × World R)
      → ((w : World R) → P w → P (f w).1)
      → Keeps P (call context f)
  unfolding call
  Keeps-call {A} steady context f keep = record { at = λ w h. go w w.faults h }
    where
      go : (w : World R) (l : List (Option Bytes)) → P w → P (attempt l context f w).1
      go w [] h = keep w h
      go w (none ∷ later) h = keep (record w { faults = later }) (steady w later h)
      go w (some text ∷ later) h = steady w later h

  pub Keeps-returns : {A : Type 0} (a : A) → Keeps P (returns a)
  unfolding returns
  Keeps-returns a = record { at = λ w h. h }

  pub Keeps-fails : {A : Type 0} (e : RepoError) → Keeps P (fails {A = A} e)
  unfolding fails
  Keeps-fails e = record { at = λ w h. h }

  pub Keeps-bind :
      {A B : Type 0} (m : Exec R A) (f : A → Exec R B)
      → Keeps P m
      → ((a : A) → Keeps P (f a))
      → Keeps P (m >>= f)
  Keeps-bind {A} {B} m f km kf = record { at = λ w h. go (m w).0 (m w).1 (km.at w h) }
    where
      go : (r : Result RepoError A) (v : World R) → P v → P (proceed r f v).1
      go (ok a) v h = (kf a).at v h
      go (err e) v h = h

  pub Keeps-if :
      {A : Type 0} (b : Bool) (m n : Exec R A)
      → Keeps P m
      → Keeps P n
      → Keeps P (if b then m else n)
  Keeps-if true m n km kn = km
  Keeps-if false m n km kn = kn

  -- What follows a query may use what the query found.
  pub Keeps-query :
      {A B : Type 0} (steady : Steady P) (context : Bytes) (f : World R → A) (k : A → Exec R B)
      → ((w : World R) → P w → P (k (f w) w).1)
      → Keeps P (query context f >>= k)
  unfolding call
  Keeps-query {A} {B} steady context f k keep = record { at = λ w h. go w w.faults h }
    where
      go :
          (w : World R) (l : List (Option Bytes))
          → P w
          → P
              (proceed
                (attempt l context (λ v. (f v, v)) w).0
                k
                (attempt l context (λ v. (f v, v)) w).1).1
      go w [] h = keep w h
      go w (none ∷ later) h = keep (record w { faults = later }) (steady w later h)
      go w (some text ∷ later) h = steady w later h
