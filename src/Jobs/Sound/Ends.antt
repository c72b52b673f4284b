-- ===== src/Jobs/Sound/Ends.antt =====
-- What an action leaves in the store when it succeeds and when it fails, for actions that are undone
-- when they fail (the transactions of internal/jobengine/repository.go).
use flight_circle_search.Base.{List, [], ◌∷◌, Bytes, Option, none, some, Result, ok, err}
use flight_circle_search.Jobs.Store.{World, RepoError, Exec, call, attempt, returns, ◌>>=◌, proceed}

-- `Q` holds of the store of a success, `E` of that of a failure.
abbrev pub Final :
    {R A : Type 0} → (World R → Type 0) → (World R → Type 0) → Result RepoError A × World R → Type 0
Final Q E (ok a, w) = Q w
Final Q E (err e, w) = E w

pub record Ends {R A : Type 0} (Q E : World R → Type 0) (m : Exec R A) (w : World R) : Type 0 where
  pub at : Final Q E (m w)

module _ {R : Type 0} {Q E : World R → Type 0} where
  pub Ends-call :
      {A : Type 0} (context : Bytes) (f : World R → A × World R) (w : World R)
      → ((l : List (Option Bytes)) → Q (f (record w { faults = l })).1)
      → ((l : List (Option Bytes)) → E (record w { faults = l }))
      → Ends Q E (call context f) w
  unfolding call
  Ends-call {A} context f w good bad = record { at = go w.faults good }
    where
      go :
          (l : List (Option Bytes))
          → ((k : List (Option Bytes)) → Q (f (record w { faults = k })).1)
          → Final Q E (attempt l context f w)
      go [] h = h w.faults
      go (none ∷ later) h = h later
      go (some text ∷ later) h = bad later

  pub Ends-returns : {A : Type 0} (a : A) (w : World R) → Q w → Ends Q E (returns a) w
  unfolding returns
  Ends-returns a w h = record { at = h }

  pub Ends-bind :
      {A B : Type 0} {M : World R → Type 0} (m : Exec R A) (f : A → Exec R B) (w : World R)
      → Ends M E m w
      → ((a : A) (v : World R) → M v → Ends Q E (f a) v)
      → Ends Q E (m >>= f) w
  Ends-bind {A} {B} {M} m f w h k = record { at = go (m w) h.at }
    where
      go : (p : Result RepoError A × World R) → Final M E p → Final Q E (proceed p.0 f p.1)
      go (ok a, v) h = (k a v h).at
      go (err e, v) h = h
