-- ===== src/Jobs/Store.antt =====
-- What the job engine reads and writes: the two tables of internal/db/migrations, the sequence of
-- the result ids, the clock of the database and the River queue. A call of the database or of the
-- queue may fail; the failures to come are a list, and a call that fails has written nothing. The
-- rows of a table stand in the order in which they were inserted, which for the results is the order
-- of their ids.
use flight_circle_search.Base.{ℕ, Option, none, some, List, [], ◌∷◌, ◌++◌, Bytes, Result, ok, err}
use flight_circle_search.Jobs.{SearchJob, SearchJobResult}

-- A queued search, with the attempts that are left (internal/api/river.go enqueues with 5).
pub record SearchJobArgs : Type 0 where
  pub result_id : ℕ
  pub job_id : ℕ
  pub origin : Bytes
  pub destination : Bytes
  pub date : Bytes
  pub attempts : ℕ

pub record World (R : Type 0) : Type 0 where
  pub jobs : List (SearchJob R)
  pub results : List SearchJobResult
  pub next_id : ℕ
  pub clock : ℕ
  pub queue : List SearchJobArgs
  pub faults : List (Option Bytes)

-- The errors of the repository: the sentinel `ErrJobNotFound`, or a text.
pub data RepoError : Type 0 where
  job_not_found : RepoError
  failure : Bytes → RepoError

abbrev pub Exec : Type 0 → Type 0 → Type 0
Exec R A = World R → Result RepoError A × World R

module _ {R A : Type 0} where
  -- One call that applies `f`, or fails with the text that stands first in the list of failures.
  abbrev pub attempt : List (Option Bytes) → Bytes → (World R → A × World R) → Exec R A
  attempt [] context f w = let (a, w') = f w in (ok a, w')
  attempt (none ∷ later) context f w = let (a, w') = f (record w { faults = later }) in (ok a, w')
  attempt (some text ∷ later) context f w =
      (err (failure (context ++ text)), record w { faults = later })

  unfoldable pub call : Bytes → (World R → A × World R) → Exec R A
  call context f w = attempt w.faults context f w

  unfoldable pub fails : RepoError → Exec R A
  fails e w = (err e, w)

  unfoldable pub returns : A → Exec R A
  returns a w = (ok a, w)

module _ {R A B : Type 0} where
  infixl 5 ◌>>=◌ ◌>>◌
  abbrev pub proceed : Result RepoError A → (A → Exec R B) → World R → Result RepoError B × World R
  proceed (ok a) f w = f a w
  proceed (err e) f w = (err e, w)

  abbrev pub ◌>>=◌ : Exec R A → (A → Exec R B) → Exec R B
  ◌>>=◌ m f w = proceed (m w).0 f (m w).1

  abbrev pub ◌>>◌ : Exec R A → Exec R B → Exec R B
  m >> n = m >>= λ _. n
