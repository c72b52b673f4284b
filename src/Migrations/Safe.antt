-- ===== src/Migrations/Safe.antt =====
-- What every run of the migrations keeps, whatever fails.
use flight_circle_search.Base.{
  ◌≡◌, refl, ap, Bool, true, false, List, [], ◌∷◌, ◌++◌, Bytes, codes, bytes_eq, Result, ok, err,
  inl, inr, ◌⊎◌,
}
use flight_circle_search.Migrations.{
  Database, Directory, Exec, in_transaction, rolled_back, lifted, ◌>>=◌, apply_script, version_of,
  unless_there, migrate_one, migrate_each, migrate_dir, migrate, run_river_migrations, ups_of,
  applying,
}
use flight_circle_search.Migrations.Replay.{IsApplied-inv}
use flight_circle_search.Migrations.History.{
  IsReplay, Keeps, Keeps-returns, Keeps-lifted, Keeps-read, Keeps-bind, like, grown,
}

-- A script of the directory, under the version in its name.
abbrev pub IsFile : Directory → Bytes → Bytes → Type 0
IsFile dir version script =
    (name : Bytes) × (version_of name ≡ version) × (dir.read_file name ≡ ok script)

module _ {S : Type 0} (run : Bytes → S → Result Bytes S) (first : S)
    (IsKnown : Bytes → Bytes → Type 0) where
  transaction_keeps :
      (body : Exec S (Unit {0})) (db : Database S)
      → IsReplay run first IsKnown db
      → ((after : Database S)
          → in_transaction body db ≡ (ok tt, after)
          → IsReplay run first IsKnown after)
      → (p : Result Bytes (Unit {0}) × Database S) → body db ≡ p
      → IsReplay run first IsKnown (rolled_back db p).1
  unfolding in_transaction
  transaction_keeps body db g done (ok tt, after) e = done after (ap (rolled_back db) e)
  transaction_keeps body db g done (err text, after) e = like run first IsKnown db _ refl refl g

  module _ (dir : Directory) (kind : Bytes)
      (known : (version script : Bytes) → IsFile dir version script → IsKnown version script) where
    Keeps-apply_script :
        (name script : Bytes)
        → dir.read_file name ≡ ok script
        → Keeps run first IsKnown (apply_script run dir kind name script)
    unfolding apply_script in_transaction
    Keeps-apply_script name script e = record {
      at = λ db g.
          transaction_keeps (applying run dir kind name script) db g
            (λ after h.
              grown run first IsKnown name script db after (known _ script (name, refl, e))
                (IsApplied-inv run dir kind name script db after h) g)
            _ refl;
    }

    read_then :
        (name : Bytes) (r : Result Bytes Bytes)
        → dir.read_file name ≡ r
        → (context : Bytes)
        → Keeps run first IsKnown (lifted context r >>= apply_script run dir kind name)
    read_then name (ok script) e context = record {
      at = λ db g. (Keeps-apply_script name script e).at db g;
    }
    read_then name (err text) e context = record { at = λ db g. g }

    Keeps-unless_there :
        (name : Bytes) (b : Bool) → Keeps run first IsKnown (unless_there run dir kind name b)
    Keeps-unless_there name true = Keeps-returns run first IsKnown tt
    Keeps-unless_there name false =
        read_then name (dir.read_file name) refl (codes "read " ++ kind ++ name ++ codes ": ")

    Keeps-migrate_one : (name : Bytes) → Keeps run first IsKnown (migrate_one run dir kind name)
    unfolding migrate_one
    Keeps-migrate_one name =
        Keeps-bind run first IsKnown _ _ (Keeps-read run first IsKnown _ _ (λ d. refl))
          (λ b. Keeps-unless_there name b)

    Keeps-migrate_each :
        (names : List Bytes) → Keeps run first IsKnown (migrate_each run dir kind names)
    unfolding migrate_each
    Keeps-migrate_each [] = Keeps-returns run first IsKnown tt
    Keeps-migrate_each (name ∷ names) =
        Keeps-bind run first IsKnown _ _ (Keeps-migrate_one name) (λ u. Keeps-migrate_each names)

    Keeps-migrate_dir : Keeps run first IsKnown (migrate_dir run dir kind)
    unfolding migrate_dir
    Keeps-migrate_dir =
        Keeps-bind run first IsKnown _ _
          (Keeps-lifted run first IsKnown (codes "read " ++ kind ++ codes "migrations: ") dir.names)
          (λ names. Keeps-migrate_each (ups_of names))

module _ {S : Type 0} (run : Bytes → S → Result Bytes S) (first : S) (dir river : Directory) where
  -- A script of one of the two directories.
  abbrev pub IsOurs : Bytes → Bytes → Type 0
  IsOurs version script = IsFile dir version script ⊎ IsFile river version script

  -- Whatever fails, a run of the migrations leaves a schema that the recorded scripts, each from one of the two directories, make of the first schema in the order in which they were recorded, and no version is recorded twice; if this was so before.
  pub run_river_migrations-IsReplay :
      (db : Database S)
      → IsReplay run first IsOurs db
      → IsReplay run first IsOurs (run_river_migrations run dir river db).1
  unfolding run_river_migrations migrate
  run_river_migrations-IsReplay db g =
      (Keeps-bind run first IsOurs _ _
          (Keeps-bind run first IsOurs _ _ (Keeps-read run first IsOurs _ _ (λ d. refl))
            (λ u. Keeps-migrate_dir run first IsOurs dir [] (λ v s h. inl h)))
          (λ u. Keeps-migrate_dir run first IsOurs river (codes "river ") (λ v s h. inr h))).at
        db g
