-- ===== src/Migrations/Replay.antt =====
-- The migrated schema is what the recorded scripts make of the first one.
use flight_circle_search.Base.{
  ◌≡◌, refl, sym, ap, subst, false, Option, none, some, List, [], ◌∷◌, ◌++◌, Bytes, bytes_eq,
  contains, Result, ok, err, arith, Bool-cases, inl, inr,
}
use flight_circle_search.Migrations.{
  Database, Directory, Exec, call, in_transaction, rolled_back, in_context, attempt, proceed,
  changed, insert_version, apply_script, version_of,
}

module _ {S A : Type 0} where
  pub context_inv :
      (context : Bytes) (p : Result Bytes A × Database S) {a : A} {db : Database S}
      → in_context context p ≡ (ok a, db)
      → p ≡ (ok a, db)
  context_inv context (ok b, d) h = h
  context_inv context (err e, d) h = ground arith

  attempt_inv :
      (l : List (Option Bytes)) (context : Bytes) (f : Exec S A) (db : Database S) {a : A}
      {after : Database S}
      → attempt l context f db ≡ (ok a, after)
      → db.faults ≡ l
      → (later : List (Option Bytes)) × (f (record db { faults = later }) ≡ (ok a, after))
  attempt_inv [] context f db {a} {after} h e = (
    [],
    subst (λ l. f (record db { faults = l }) ≡ (ok a, after)) e (context_inv context (f db) h),
  )
  attempt_inv (none ∷ later) context f db h e =
      (later, context_inv context (f (record db { faults = later })) h)
  attempt_inv (some text ∷ later) context f db h e = ground arith

  -- A call that succeeded did what it is for.
  pub call_inv :
      (context : Bytes) (f : Exec S A) (db : Database S) {a : A} {after : Database S}
      → call context f db ≡ (ok a, after)
      → (later : List (Option Bytes)) × (f (record db { faults = later }) ≡ (ok a, after))
  unfolding call
  call_inv context f db h = attempt_inv db.faults context f db h refl

  rolled_back_inv :
      (db : Database S) (p : Result Bytes A × Database S) {a : A} {after : Database S}
      → rolled_back db p ≡ (ok a, after)
      → p ≡ (ok a, after)
  rolled_back_inv db (ok b, d) h = h
  rolled_back_inv db (err e, d) h = ground arith

module _ {S A B : Type 0} where
  pub proceed_inv :
      (f : A → Exec S B) (p : Result Bytes A × Database S) {b : B} {after : Database S}
      → proceed f p ≡ (ok b, after)
      → (a : A) × (mid : Database S) × (p ≡ (ok a, mid)) × (f a mid ≡ (ok b, after))
  proceed_inv f (ok a, mid) h = (a, mid, refl, h)
  proceed_inv f (err e, mid) h = ground arith

module _ {S : Type 0} (run : Bytes → S → Result Bytes S) where
  changed_inv :
      (db after : Database S) (r : Result Bytes S)
      → changed run db r ≡ (ok tt, after)
      → (s : S) × (r ≡ ok s) × (after.schema ≡ s) × (after.versions ≡ db.versions)
  changed_inv db after (ok s) h = (s, refl, cc, cc)
  changed_inv db after (err e) h = ground arith

  insert_inv :
      (version : Bytes) (db after : Database S)
      → insert_version run version db ≡ (ok tt, after)
      → (contains version db.versions ≡ false)
        × (after.schema ≡ db.schema)
        × (after.versions ≡ db.versions ++ version ∷ [])
  insert_inv version db after h = elim (Bool-cases (contains version db.versions)) [
    | inl q ↦ ground arith
    | inr q ↦
        let k = (rw q at h) in (q, ap (λ x. x.1.schema) (sym k), ap (λ x. x.1.versions) (sym k))
  ]

  -- What was written in a transaction of four calls.
  abbrev pub IsApplied : Bytes → Bytes → Database S → Database S → Type 0
  IsApplied name script db after =
      (run script db.schema ≡ ok after.schema)
      × (contains (version_of name) db.versions ≡ false)
      × (after.versions ≡ db.versions ++ version_of name ∷ [])

  join :
      (name script : Bytes) (db d1 d2 d3 after : Database S) (s : S)
      → db.schema ≡ d1.schema
      → db.versions ≡ d1.versions
      → run script d1.schema ≡ ok s
      → d2.schema ≡ s
      → d2.versions ≡ d1.versions
      → contains (version_of name) d2.versions ≡ false
      → d3.schema ≡ d2.schema
      → d3.versions ≡ d2.versions ++ version_of name ∷ []
      → d3.schema ≡ after.schema
      → d3.versions ≡ after.versions
      → IsApplied name script db after
  join name script db d1 d2 d3 after s a b c d e f g h i j = (cc, cc, cc)

  module _ (dir : Directory) (kind : Bytes) where
    -- The body of a transaction that succeeded: the script ran, and its version is the last of the versions and was not among them.
    pub IsApplied-inv :
        (name script : Bytes) (db after : Database S)
        → apply_script run dir kind name script db ≡ (ok tt, after)
        → IsApplied name script db after
    unfolding apply_script in_transaction
    IsApplied-inv name script db after h =
        let (u1, d1, c1, k1) = proceed_inv _ _ (rolled_back_inv db _ h) in
        let (l1, e1) = call_inv _ _ db c1 in
        let (u2, d2, c2, k2) = proceed_inv _ _ k1 in
        let (l2, e2) = call_inv _ _ d1 c2 in
        let (s, ran, here, same) = changed_inv (record d1 { faults = l2 }) d2 _ e2 in
        let (u3, d3, c3, k3) = proceed_inv _ _ k2 in
        let (l3, e3) = call_inv _ _ d2 c3 in
        let (fresh, kept, added) = insert_inv (version_of name) (record d2 { faults = l3 }) d3 e3 in
        let (l4, e4) = call_inv _ _ d3 k3 in
        join name script db d1 d2 d3 after s (ap (λ x. x.1.schema) e1) (ap (λ x. x.1.versions) e1)
          ran here same fresh kept added (ap (λ x. x.1.schema) e4) (ap (λ x. x.1.versions) e4)
