-- ===== src/Migrations.antt =====
-- internal/db/db.go: the migrations of the schema. A directory that is built into the program and
-- what a script does to the schema are parameters. A call of the database may fail; the failures to
-- come are a list, a call that fails has written nothing, and a transaction that fails is rolled
-- back. The rows of schema_migrations stand in the order in which they were inserted; without the
-- table there are none.
pub mod Replay
pub mod History
pub mod Safe
pub mod Again
pub mod Recorded
use flight_circle_search.Base.{
  ℕ, ◌-◌, Bool, true, false, ◌&&◌, ◌||◌, Option, none, some, List, [], ◌∷◌, ◌++◌, Bytes, codes,
  bytes_eq, nat_eq, ◌==◌, ltb, if◌then◌else◌, length, take, drop, keep, contains, Result, ok, err,
}

pub record Database (S : Type 0) : Type 0 where
  pub schema : S
  pub versions : List Bytes
  pub faults : List (Option Bytes)

-- A directory of the program: the names of its files, and what a file holds.
pub record Directory : Type 0 where
  pub names : Result Bytes (List Bytes)
  pub read_file : Bytes → Result Bytes Bytes

abbrev pub Exec : Type 0 → Type 0 → Type 0
Exec S A = Database S → Result Bytes A × Database S

module _ {S A : Type 0} where
  abbrev pub in_context : Bytes → Result Bytes A × Database S → Result Bytes A × Database S
  in_context context (ok a, db) = (ok a, db)
  in_context context (err text, db) = (err (context ++ text), db)

  abbrev pub attempt : List (Option Bytes) → Bytes → Exec S A → Exec S A
  attempt [] context f db = in_context context (f db)
  attempt (none ∷ later) context f db = in_context context (f (record db { faults = later }))
  attempt (some text ∷ later) context f db = (err (context ++ text), record db { faults = later })

  -- A call that does `f`, which may refuse, or fails with the text that stands first in the list of failures.
  unfoldable pub call : Bytes → Exec S A → Exec S A
  call context f db = attempt db.faults context f db

  unfoldable pub returns : A → Exec S A
  returns a db = (ok a, db)

  -- A result that needs no database.
  abbrev pub lifted : Bytes → Result Bytes A → Exec S A
  lifted context r db = in_context context (r, db)

  abbrev pub rolled_back : Database S → Result Bytes A × Database S → Result Bytes A × Database S
  rolled_back db (ok a, after) = (ok a, after)
  rolled_back db (err e, after) =
      (err e, record after { schema = db.schema; versions = db.versions })

  unfoldable pub in_transaction : Exec S A → Exec S A
  in_transaction body db = rolled_back db (body db)

module _ {S A B : Type 0} where
  infixl 5 ◌>>=◌ ◌>>◌
  abbrev pub proceed : (A → Exec S B) → Result Bytes A × Database S → Result Bytes B × Database S
  proceed f (ok a, db) = f a db
  proceed f (err e, db) = (err e, db)

  abbrev pub ◌>>=◌ : Exec S A → (A → Exec S B) → Exec S B
  ◌>>=◌ m f db = proceed f (m db)

  abbrev pub ◌>>◌ : Exec S A → Exec S B → Exec S B
  m >> n = m >>= λ _. n

-- `len(name) > 7 && name[len(name)-7:] == ".up.sql"`
abbrev pub is_up : Bytes → Bool
is_up name = ltb 7 (length name) && drop (length name - 7) name == codes ".up.sql"

abbrev pub version_of : Bytes → Bytes
version_of name = take (length name - 7) name

-- The order of Go on strings.
unfoldable pub bytes_leb : Bytes → Bytes → Bool
bytes_leb [] t = true
bytes_leb (x ∷ s) [] = false
bytes_leb (x ∷ s) (y ∷ t) = ltb x y || x == y && bytes_leb s t

unfoldable pub insert_sorted : Bytes → List Bytes → List Bytes
unfolding bytes_leb
insert_sorted x [] = x ∷ []
insert_sorted x (y ∷ ys) =
    let rest = insert_sorted x ys in if bytes_leb x y then x ∷ y ∷ ys else y ∷ rest

-- `sort.Strings`
unfoldable pub sort_strings : List Bytes → List Bytes
unfolding insert_sorted
sort_strings [] = []
sort_strings (x ∷ xs) = insert_sorted x (sort_strings xs)

-- The loop that collects the names, and the sort.
abbrev pub ups_of : List Bytes → List Bytes
ups_of names = sort_strings (keep is_up names)

abbrev pub checking : Bytes → Bytes → Bytes
checking [] version = codes "check " ++ version ++ codes ": "
checking (k ∷ kind) version = codes "check river migration " ++ version ++ codes ": "

module _ {S : Type 0} (run : Bytes → S → Result Bytes S) where
  abbrev pub changed : Database S → Result Bytes S → Result Bytes (Unit {0}) × Database S
  changed db (ok schema) = (ok tt, record db { schema = schema })
  changed db (err text) = (err text, db)

  abbrev pub run_script : Bytes → Exec S (Unit {0})
  run_script script db = changed db (run script db.schema)

  -- The version is the primary key.
  abbrev pub insert_version : Bytes → Exec S (Unit {0})
  insert_version version db =
      if contains version db.versions
      then (err (codes "duplicate key"), db)
      else (ok tt, record db { versions = db.versions ++ version ∷ [] })

  module _ (dir : Directory) (kind : Bytes) where
    -- The calls between `Begin` and `Commit`.
    abbrev pub applying : Bytes → Bytes → Exec S (Unit {0})
    applying name script = do
      call (codes "begin tx for " ++ kind ++ name ++ codes ": ") (λ db. (ok tt, db))
      call (codes "apply " ++ kind ++ name ++ codes ": ") (run_script script)
      call (codes "record " ++ kind ++ version_of name ++ codes ": ")
          (insert_version (version_of name))
      call (codes "commit " ++ kind ++ name ++ codes ": ") (λ db. (ok tt, db))

    unfoldable pub apply_script : Bytes → Bytes → Exec S (Unit {0})
    apply_script name script = in_transaction (applying name script)

    abbrev pub unless_there : Bytes → Bool → Exec S (Unit {0})
    unless_there name true = returns tt
    unless_there name false = do
      script ← lifted (codes "read " ++ kind ++ name ++ codes ": ") (dir.read_file name)
      apply_script name script

    -- The body of the loop.
    unfoldable pub migrate_one : Bytes → Exec S (Unit {0})
    migrate_one name = do
      exists ←
          call (checking kind (version_of name))
            (λ db. (ok (contains (version_of name) db.versions), db))
      unless_there name exists

    unfoldable pub migrate_each : List Bytes → Exec S (Unit {0})
    migrate_each [] = returns tt
    migrate_each (name ∷ names) = do migrate_one name; migrate_each names

    unfoldable pub migrate_dir : Exec S (Unit {0})
    migrate_dir = do
      names ← lifted (codes "read " ++ kind ++ codes "migrations: ") dir.names
      migrate_each (ups_of names)

  -- `Migrate`
  unfoldable pub migrate : Directory → Exec S (Unit {0})
  migrate dir = do call (codes "create schema_migrations: ") (λ db. (ok tt, db)); migrate_dir dir []

  -- `RunRiverMigrations`
  unfoldable pub run_river_migrations : Directory → Directory → Exec S (Unit {0})
  run_river_migrations dir river = do migrate dir; migrate_dir river (codes "river ")
