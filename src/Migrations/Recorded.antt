-- ===== src/Migrations/Recorded.antt =====
-- Which scripts a run has recorded.
use flight_circle_search.Base.{
  ◌+◌, ◌-◌, ◌≡◌, ◌≢◌, refl, ap, ◌∙◌, subst, true, List, [], ◌∷◌, ◌++◌, Memᴰ, Bytes, codes, bytes_eq,
  contains, Result, ok, arith, beq_refl, All-at, mem_keep_of, keep, length, take, drop, Bool-cases,
  inl, inr, ltb,
}
use flight_circle_search.Migrations.{
  Database, Directory, is_up, version_of, bytes_leb, insert_sorted, sort_strings, ups_of,
  run_river_migrations,
}
use flight_circle_search.Migrations.Again.{HasAll, rerun}

mem_inserted : (x y : Bytes) (ys : List Bytes) → Memᴰ y (x ∷ ys) → Memᴰ y (insert_sorted x ys)
unfolding insert_sorted
mem_inserted x y [] m = m
mem_inserted x y (z ∷ ys) m = elim (Bool-cases (bytes_leb x z)) [
  | inl q ↦ rw q m
  | inr q ↦ rw q (elim m [
    | Memᴰ.head e ↦ Memᴰ.tail (mem_inserted x y ys (Memᴰ.head e))
    | Memᴰ.tail (Memᴰ.head e) ↦ Memᴰ.head e
    | Memᴰ.tail (Memᴰ.tail u) ↦ Memᴰ.tail (mem_inserted x y ys (Memᴰ.tail u))
  ])
]

mem_sorted : (y : Bytes) (ys : List Bytes) → Memᴰ y ys → Memᴰ y (sort_strings ys)
unfolding sort_strings
mem_sorted y [] m = m
mem_sorted y (x ∷ ys) (Memᴰ.head e) = mem_inserted x y (sort_strings ys) (Memᴰ.head e)
mem_sorted y (x ∷ ys) (Memᴰ.tail m) =
    mem_inserted x y (sort_strings ys) (Memᴰ.tail (mem_sorted y ys m))

length-up : (stem : Bytes) → length (stem ++ codes ".up.sql") ≡ length stem + 7
length-up [] = refl
length-up (c ∷ stem) = rw (length-up stem) (omega arith)

stem_length : (stem : Bytes) → length (stem ++ codes ".up.sql") - 7 ≡ length stem
stem_length stem = rw (length-up stem) (omega arith)

drop-stem : (stem rest : Bytes) → drop (length stem) (stem ++ rest) ≡ rest
drop-stem [] rest = refl
drop-stem (c ∷ stem) rest = drop-stem stem rest

take-stem : (stem rest : Bytes) → take (length stem) (stem ++ rest) ≡ stem
take-stem [] rest = refl
take-stem (c ∷ stem) rest = ap (λ s. c ∷ s) (take-stem stem rest)

version_of-stem : (stem : Bytes) → version_of (stem ++ codes ".up.sql") ≡ stem
version_of-stem stem =
    ap (λ n. take n (stem ++ codes ".up.sql")) (stem_length stem) ∙ take-stem stem (codes ".up.sql")

long_enough : (stem : Bytes) → stem ≢ [] → ltb 7 (length (stem ++ codes ".up.sql")) ≡ true
long_enough [] h = absurd (h refl)
long_enough (c ∷ stem) h = rw (length-up stem) (ground arith)

is_up-stem : (stem : Bytes) → stem ≢ [] → is_up (stem ++ codes ".up.sql") ≡ true
is_up-stem stem h =
    rw
      (
        long_enough stem h,
        ap (λ n. drop n (stem ++ codes ".up.sql")) (stem_length stem)
            ∙ drop-stem stem (codes ".up.sql"),
      )
      (beq_refl (codes ".up.sql"))

-- Every script whose name ends in .up.sql is recorded under the part of the name before that.
abbrev pub IsRecorded : {S : Type 0} → List Bytes → Database S → Type 0
IsRecorded names db =
    (stem : Bytes)
    → stem ≢ []
    → Memᴰ (stem ++ codes ".up.sql") names
    → contains stem db.versions ≡ true

all-IsRecorded :
    {S : Type 0} (names : List Bytes) (db : Database S)
    → HasAll (ups_of names) db
    → IsRecorded names db
all-IsRecorded names db all stem long m =
    subst (λ v. contains v db.versions ≡ true) (version_of-stem stem)
      (All-at (λ name. contains (version_of name) db.versions ≡ true) (ups_of names) all
        (mem_sorted _ (keep is_up names) (mem_keep_of is_up names m (is_up-stem stem long))))

module _ {S : Type 0} (run : Bytes → S → Result Bytes S) (dir river : Directory) where
  -- After a run that succeeded, every script of both directories whose name ends in .up.sql, with something before that, is recorded under what stands before it, and a further run, on a database that answers, succeeds and changes nothing.
  pub run_river_migrations_again :
      (names others : List Bytes) (db after : Database S)
      → dir.names ≡ ok names
      → river.names ≡ ok others
      → run_river_migrations run dir river db ≡ (ok tt, after)
      → IsRecorded names after
        × IsRecorded others after
        × (run_river_migrations run dir river (record after { faults = [] })
            ≡ (ok tt, record after { faults = [] }))
  run_river_migrations_again names others db after n m h =
      let (ours, theirs, again) = rerun run dir river names others db after n m h in
      (all-IsRecorded names after ours, all-IsRecorded others after theirs, again)
