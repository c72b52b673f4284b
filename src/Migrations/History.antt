-- ===== src/Migrations/History.antt =====
-- The invariant of the migrations, and their repetition.
use mathlib.Core.List.{map-append}
use flight_circle_search.Base.{
  ◌≡◌, refl, sym, ap, subst, ◌∙◌, false, Option, none, some, List, [], ◌∷◌, ◌++◌, map, Bytes,
  bytes_eq, ◌==◌, contains, Result, ok, err, arith, All, All-append, Result-cases, inl, inr,
  beq_of_ne, ne_of_beq,
}
use flight_circle_search.Migrations.{
  ◌>>=◌, Database, Exec, call, returns, in_context, attempt, lifted, proceed, version_of,
}
use flight_circle_search.Migrations.Replay.{IsApplied}

abbrev pub IsDistinct : List Bytes → Type 0
IsDistinct [] = Unit
IsDistinct (x ∷ xs) = (contains x xs ≡ false) × IsDistinct xs

contains-end :
    (x v : Bytes) (xs : List Bytes)
    → contains x xs ≡ false
    → (x == v) ≡ false
    → contains x (xs ++ v ∷ []) ≡ false
unfolding contains
contains-end x v [] h n = ground arith
contains-end x v (y ∷ xs) h n = ground (arith, contains-end x v xs)

head_differs : (v x : Bytes) (xs : List Bytes) → contains v (x ∷ xs) ≡ false → (x == v) ≡ false
unfolding contains
head_differs v x xs h = beq_of_ne x v (λ e. ne_of_beq v x (ground arith) (sym e))

tail_lacks : (v x : Bytes) (xs : List Bytes) → contains v (x ∷ xs) ≡ false → contains v xs ≡ false
unfolding contains
tail_lacks v x xs h = ground arith

IsDistinct-end :
    (v : Bytes) (xs : List Bytes)
    → IsDistinct xs
    → contains v xs ≡ false
    → IsDistinct (xs ++ v ∷ [])
unfolding contains
IsDistinct-end v [] d h = (refl, tt)
IsDistinct-end v (x ∷ xs) (n, d) h =
    (contains-end x v xs n (head_differs v x xs h), IsDistinct-end v xs d (tail_lacks v x xs h))

module _ {S : Type 0} (run : Bytes → S → Result Bytes S) where
  abbrev continued : (S → Result Bytes S) → Result Bytes S → Result Bytes S
  continued f (ok s) = f s
  continued f (err e) = err e

  -- The scripts of a history, one after the other.
  abbrev pub runs : List (Bytes × Bytes) → S → Result Bytes S
  runs [] s = ok s
  runs ((v, script) ∷ history) s = continued (runs history) (run script s)

  runs-end :
      (history : List (Bytes × Bytes)) (v script : Bytes) (s t u : S)
      → runs history s ≡ ok t
      → run script t ≡ ok u
      → runs (history ++ (v, script) ∷ []) s ≡ ok u
  runs-end [] v script s t u h k = let e : run script s ≡ ok u = cc in rw e refl
  runs-end ((w, q) ∷ history) v script s t u h k = elim (Result-cases (run q s)) [
    | inl (m, e) ↦ rw e (runs-end history v script m t u (rw e at h) k)
    | inr (text, e) ↦ cc (rw e at h)
  ]

-- The schema is what the history makes of the first schema; the history is of known scripts, its versions are the recorded ones, and none of them is there twice.
pub record IsReplay {S : Type 0} (run : Bytes → S → Result Bytes S) (first : S)
    (IsKnown : Bytes → Bytes → Type 0) (db : Database S) : Type 0 where
  pub history : List (Bytes × Bytes)
  pub recorded : db.versions ≡ map (λ x. x.0) history
  pub replayed : runs run history first ≡ ok db.schema
  pub known : All (λ (x : Bytes × Bytes). IsKnown x.0 x.1) history
  pub distinct : IsDistinct db.versions

module _ {S : Type 0} (run : Bytes → S → Result Bytes S) (first : S)
    (IsKnown : Bytes → Bytes → Type 0) where
  abbrev pub IsGood : Database S → Type 0
  IsGood = IsReplay run first IsKnown

  -- Whatever happens, the invariant holds after the action.
  pub record Keeps {A : Type 0} (m : Exec S A) : Type 0 where
    pub at : (db : Database S) → IsGood db → IsGood (m db).1

  pub like :
      (db d : Database S) → db.schema ≡ d.schema → db.versions ≡ d.versions → IsGood db → IsGood d
  like db d a b g = record {
    history = g.history;
    recorded = sym b ∙ g.recorded;
    replayed = g.replayed ∙ ap (λ s. ok s) a;
    known = g.known;
    distinct = subst IsDistinct b g.distinct;
  }

  pub grown :
      (name script : Bytes) (db after : Database S)
      → IsKnown (version_of name) script
      → IsApplied run name script db after
      → IsGood db
      → IsGood after
  grown name script db after k (ran, fresh, added) g = record {
    history = g.history ++ (version_of name, script) ∷ [];
    recorded =
        added
        ∙ ap (λ vs. vs ++ version_of name ∷ []) g.recorded
        ∙ sym (map-append (λ x. x.0) g.history ((version_of name, script) ∷ []));
    replayed =
        runs-end run g.history (version_of name) script first db.schema after.schema g.replayed ran;
    known = All-append _ g.history ((version_of name, script) ∷ []) g.known (k, tt);
    distinct =
        subst IsDistinct (sym added)
          (IsDistinct-end (version_of name) db.versions g.distinct fresh);
  }

  pub Keeps-returns : {A : Type 0} (a : A) → Keeps (returns {S = S} a)
  unfolding returns
  Keeps-returns a = record { at = λ db g. g }

  in_context_same :
      {A : Type 0} (context : Bytes) (p : Result Bytes A × Database S)
      → (in_context context p).1 ≡ p.1
  in_context_same context (ok a, db) = refl
  in_context_same context (err e, db) = refl

  pub Keeps-lifted :
      {A : Type 0} (context : Bytes) (r : Result Bytes A) → Keeps (lifted {S = S} context r)
  Keeps-lifted context r = record {
    at = λ db g. subst IsGood (sym (in_context_same context (r, db))) g;
  }

  attempt_keeps :
      {A : Type 0} (l : List (Option Bytes)) (context : Bytes) (f : Exec S A) (db : Database S)
      → ((d : Database S) → (f d).1 ≡ d)
      → IsGood db
      → IsGood (attempt l context f db).1
  attempt_keeps [] context f db same g =
      subst IsGood (sym (in_context_same context (f db) ∙ same db)) g
  attempt_keeps (none ∷ later) context f db same g =
      let d = record db { faults = later } in
      subst IsGood (sym (in_context_same context (f d) ∙ same d)) (like db d refl refl g)
  attempt_keeps (some text ∷ later) context f db same g =
      like db (record db { faults = later }) refl refl g

  -- A call that only reads.
  pub Keeps-read :
      {A : Type 0} (context : Bytes) (f : Exec S A)
      → ((d : Database S) → (f d).1 ≡ d)
      → Keeps (call context f)
  unfolding call
  Keeps-read context f same = record { at = λ db g. attempt_keeps db.faults context f db same g }

  pub Keeps-bind :
      {A B : Type 0} (m : Exec S A) (f : A → Exec S B)
      → Keeps m
      → ((a : A) → Keeps (f a))
      → Keeps (m >>= f)
  Keeps-bind {A} {B} m f km kf = record { at = λ db g. go (m db) (km.at db g) }
    where
      go : (p : Result Bytes A × Database S) → IsGood p.1 → IsGood (proceed f p).1
      go (ok a, d) g = (kf a).at d g
      go (err e, d) g = g
