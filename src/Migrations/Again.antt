-- ===== src/Migrations/Again.antt =====
-- A repetition of the migrations.
use flight_circle_search.Base.{
  ◌≡◌, refl, sym, ap, ◌∙◌, Bool, true, false, ◌||◌, List, [], ◌∷◌, ◌++◌, Bytes, codes, bytes_eq,
  ◌==◌, contains, Result, ok, err, arith, beq_refl, All,
}
use flight_circle_search.Migrations.{
  Database, Directory, call, returns, lifted, proceed, ◌>>=◌, apply_script, version_of,
  unless_there, migrate_one, migrate_each, migrate_dir, migrate, run_river_migrations, ups_of,
}
use flight_circle_search.Migrations.Replay.{IsApplied-inv, call_inv, proceed_inv}

contains-append :
    (v w : Bytes) (xs : List Bytes) → contains v (xs ++ w ∷ []) ≡ (contains v xs || v == w)
unfolding contains
contains-append v w [] = ground arith
contains-append v w (x ∷ xs) = ground (arith, contains-append v w xs)

ok_bool : {b c : Bool} → ◌≡◌ {A = Result Bytes Bool} (ok b) (ok c) → b ≡ c
ok_bool h = cc

module _ {S : Type 0} where
  -- What was recorded stays recorded.
  abbrev pub Extends : Database S → Database S → Type 0
  Extends db after = (v : Bytes) → contains v db.versions ≡ true → contains v after.versions ≡ true

  abbrev pub HasAll : List Bytes → Database S → Type 0
  HasAll names db = All (λ name. contains (version_of name) db.versions ≡ true) names

  extend_all :
      (names : List Bytes) (db after : Database S)
      → Extends db after
      → HasAll names db
      → HasAll names after
  extend_all [] db after e h = tt
  extend_all (name ∷ names) db after e (h, hs) = (e _ h, extend_all names db after e hs)

  same-Extends : (db after : Database S) → db.versions ≡ after.versions → Extends db after
  same-Extends db after e v h = ap (contains v) (sym e) ∙ h

  added-Extends :
      (db after : Database S) (w : Bytes)
      → after.versions ≡ db.versions ++ w ∷ []
      → Extends db after × (contains w after.versions ≡ true)
  added-Extends db after w e = (
    λ v h. ap (contains v) e ∙ contains-append v w db.versions ∙ rw h refl,
    ap (contains w) e
        ∙ contains-append w w db.versions
        ∙ rw (beq_refl w) (or_true (contains w db.versions)),
  )
    where
      or_true : (b : Bool) → (b || true) ≡ true
      or_true true = refl
      or_true false = refl

module _ {S : Type 0} (run : Bytes → S → Result Bytes S) (dir : Directory) (kind : Bytes) where
  abbrev Records : Bytes → Database S → Database S → Type 0
  Records name db after = (contains (version_of name) after.versions ≡ true) × Extends db after

  read-Records :
      (name : Bytes) (db after : Database S) (r : Result Bytes Bytes) (context : Bytes)
      → (lifted context r >>= apply_script run dir kind name) db ≡ (ok tt, after)
      → Records name db after
  read-Records name db after (ok script) context h =
      let (ran, fresh, added) = IsApplied-inv run dir kind name script db after h in
      let (more, there) = added-Extends db after (version_of name) added in (there, more)
  read-Records name db after (err e) context h = ground arith

  unless-Records :
      (name : Bytes) (db after : Database S) (b : Bool)
      → contains (version_of name) db.versions ≡ b
      → unless_there run dir kind name b db ≡ (ok tt, after)
      → Records name db after
  unfolding returns
  unless-Records name db after true q h =
      let e = ap (λ x. x.1.versions) h in
      (ap (contains (version_of name)) (sym e) ∙ q, same-Extends db after e)
  unless-Records name db after false q h =
      read-Records name db after (dir.read_file name) (codes "read " ++ kind ++ name ++ codes ": ")
        h

  one-Records :
      (name : Bytes) (db after : Database S)
      → migrate_one run dir kind name db ≡ (ok tt, after)
      → Records name db after
  unfolding migrate_one
  one-Records name db after h =
      let (b, d, c, k) = proceed_inv _ _ h in
      let (l, e) = call_inv _ _ db c in
      let same : db.versions ≡ d.versions = ap (λ x. x.1.versions) e in
      let (there, more) =
        unless-Records name d after b
          (ap (contains (version_of name)) (sym same) ∙ ok_bool (ap (λ x. x.0) e)) k in
      (there, λ v g. more v (same-Extends db d same v g))

  each_records :
      (names : List Bytes) (db after : Database S)
      → migrate_each run dir kind names db ≡ (ok tt, after)
      → HasAll names after × Extends db after
  unfolding migrate_each returns
  each_records [] db after h = (tt, same-Extends db after (ap (λ x. x.1.versions) h))
  each_records (name ∷ names) db after h =
      let (u, d, c, k) = proceed_inv _ _ h in
      let (there, more) = one-Records name db d c in
      let (all, later) = each_records names d after k in
      ((later _ there, all), λ v g. later v (more v g))

  one_again :
      (name : Bytes) (db : Database S)
      → db.faults ≡ []
      → contains (version_of name) db.versions ≡ true
      → migrate_one run dir kind name db ≡ (ok tt, db)
  unfolding migrate_one call returns
  one_again name db f h = ground arith

  each_again :
      (names : List Bytes) (db : Database S)
      → db.faults ≡ []
      → HasAll names db
      → migrate_each run dir kind names db ≡ (ok tt, db)
  unfolding migrate_each returns
  each_again [] db f h = refl
  each_again (name ∷ names) db f (h, hs) =
      ap (proceed (λ u. migrate_each run dir kind names)) (one_again name db f h)
      ∙ each_again names db f hs

  dir_each :
      (names : List Bytes) (db : Database S)
      → dir.names ≡ ok names
      → migrate_dir run dir kind db ≡ migrate_each run dir kind (ups_of names) db
  unfolding migrate_dir
  dir_each names db n =
      ap
        (λ r.
          (lifted (codes "read " ++ kind ++ codes "migrations: ") r >>= λ ns.
          migrate_each run dir kind (ups_of ns))
            db)
        n

  dir_records :
      (names : List Bytes) (db after : Database S)
      → dir.names ≡ ok names
      → migrate_dir run dir kind db ≡ (ok tt, after)
      → HasAll (ups_of names) after × Extends db after
  dir_records names db after n h =
      each_records (ups_of names) db after (sym (dir_each names db n) ∙ h)

  dir_again :
      (names : List Bytes) (db : Database S)
      → dir.names ≡ ok names
      → db.faults ≡ []
      → HasAll (ups_of names) db
      → migrate_dir run dir kind db ≡ (ok tt, db)
  dir_again names db n f h = dir_each names db n ∙ each_again (ups_of names) db f h

module _ {S : Type 0} (run : Bytes → S → Result Bytes S) (dir river : Directory) where
  abbrev pub answering : Database S → Database S
  answering db = record db { faults = [] }

  migrate_records :
      (names : List Bytes) (db after : Database S)
      → dir.names ≡ ok names
      → migrate run dir db ≡ (ok tt, after)
      → HasAll (ups_of names) after
  unfolding migrate
  migrate_records names db after n h =
      let (u, d, c, k) =
        proceed_inv {A = Unit {0}} (λ u. migrate_dir run dir [])
          (call (codes "create schema_migrations: ") (λ v. (ok tt, v)) db) h in
      (dir_records run dir [] names d after n k).0

  migrate_again :
      (names : List Bytes) (db : Database S)
      → dir.names ≡ ok names
      → db.faults ≡ []
      → HasAll (ups_of names) db
      → migrate run dir db ≡ (ok tt, db)
  unfolding migrate call
  migrate_again names db n f h = ground (arith, dir_again run dir [] names db n f h)

  -- The same, in the terms of the code.
  pub rerun :
      (names others : List Bytes) (db after : Database S)
      → dir.names ≡ ok names
      → river.names ≡ ok others
      → run_river_migrations run dir river db ≡ (ok tt, after)
      → HasAll (ups_of names) after
        × HasAll (ups_of others) after
        × (run_river_migrations run dir river (answering after) ≡ (ok tt, answering after))
  unfolding run_river_migrations
  rerun names others db after n m h =
      let (u, d, c, k) =
        proceed_inv (λ v. migrate_dir run river (codes "river ")) (migrate run dir db) h in
      let (theirs, more) = dir_records run river (codes "river ") others d after m k in
      let ours = extend_all (ups_of names) d after more (migrate_records names db d n c) in
      (
        ours,
        theirs,
        ap (proceed (λ u. migrate_dir run river (codes "river ")))
              (migrate_again names (answering after) n refl ours)
            ∙ dir_again run river (codes "river ") others (answering after) m refl theirs,
      )
