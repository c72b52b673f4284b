-- ===== src/Jobs/Tables.antt =====
-- Facts about updates, searches and counts on a table, and about calls that do not fail.
use flight_circle_search.Base.{
  ℕ, ◌+◌, ◌≤◌, ◌<◌, ◌≡◌, refl, inl, inr, Bool, true, Option, none, some, List, [], ◌∷◌, Bytes, ok,
  arith, Bool-cases, if◌then◌else◌, count, false, keep, suc, ◌++◌, map, ap,
}
use flight_circle_search.Jobs.{SearchJobResult, is_open, is_dead, is_failed, is_done, is_pending}
use flight_circle_search.Jobs.Store.{World, call}
use flight_circle_search.Jobs.Repository.{update, find, of_job, of_job_in, copy_rows}

module _ {ℓ} {A : Type ℓ} where
  abbrev pub changed : (A → Bool) → (A → A) → A → A
  changed p f x = if p x then f x else x

  abbrev pub map_option {κ} : {B : Type κ} → (A → B) → Option A → Option B
  map_option f none = none
  map_option f (some a) = some (f a)

  pub find-update :
      (q p : A → Bool) (f : A → A) (xs : List A)
      → ((x : A) → q (f x) ≡ q x)
      → find q (update p f xs) ≡ map_option (changed p f) (find q xs)
  unfolding find update
  find-update q p f [] h = refl
  find-update q p f (x ∷ xs) h = ground (arith, h x, find-update q p f xs h)

  pub count-update :
      (q p : A → Bool) (f : A → A) (xs : List A)
      → ((x : A) → q (f x) ≡ q x)
      → count q (update p f xs) ≡ count q xs
  unfolding count update
  count-update q p f [] h = refl
  count-update q p f (x ∷ xs) h = ground (arith, h x, count-update q p f xs h)

  pub count-pos_of_find :
      (q p : A → Bool) (xs : List A) (a : A) → find q xs ≡ some a → p a ≡ true → 0 < count p xs
  unfolding count find
  count-pos_of_find q p [] a h k = cc
  count-pos_of_find q p (x ∷ xs) a h k = elim (Bool-cases (q x)) [
    | inl e ↦ ground arith
    | inr e ↦ ground (arith, count-pos_of_find q p xs a)
  ]

  pub find_satisfies : (q : A → Bool) (xs : List A) (a : A) → find q xs ≡ some a → q a ≡ true
  unfolding find
  find_satisfies q [] a h = cc
  find_satisfies q (x ∷ xs) a h = ground (arith, find_satisfies q xs a)

module _ {R A : Type 0} where
  pub call_ok :
      (context : Bytes) (f : World R → A × World R) (w : World R)
      → w.faults ≡ []
      → call context f w ≡ (ok (f w).0, (f w).1)
  unfolding call
  call_ok context f w h = ground arith

-- Every result of a job is either done or still open.
pub count-done-open :
    (id : ℕ) (rs : List SearchJobResult)
    → count (of_job_in id is_done) rs + count (of_job_in id is_open) rs ≡ count (of_job id) rs
unfolding count is_done is_open
count-done-open id [] = refl
count-done-open id (r ∷ rs) = ground (arith, count-done-open id rs)

pub count-bad-le-done :
    (id : ℕ) (rs : List SearchJobResult)
    → count (of_job_in id is_dead) rs + count (of_job_in id is_failed) rs
      ≤ count (of_job_in id is_done) rs
unfolding count is_done is_dead is_failed
count-bad-le-done id [] = omega arith
count-bad-le-done id (r ∷ rs) = ground (arith, count-bad-le-done id rs)

module _ {ℓ} {A : Type ℓ} where
  pub find-update_other :
      (q p : A → Bool) (f : A → A) (xs : List A)
      → ((x : A) → q (f x) ≡ q x)
      → ((x : A) → p x ≡ true → q x ≡ false)
      → find q (update p f xs) ≡ find q xs
  unfolding find update
  find-update_other q p f [] same other = refl
  find-update_other q p f (x ∷ xs) same other =
      ground (arith, same x, other x, find-update_other q p f xs same other)

  pub find-none_of_count : (q : A → Bool) (xs : List A) → count q xs ≡ 0 → find q xs ≡ none
  unfolding find count
  find-none_of_count q [] h = refl
  find-none_of_count q (x ∷ xs) h = ground (arith, find-none_of_count q xs)

  pub find-append :
      (q : A → Bool) (xs : List A) (a : A)
      → find q xs ≡ none
      → q a ≡ true
      → find q (xs ++ a ∷ []) ≡ some a
  unfolding find
  find-append q [] a h k = rw k
  find-append q (x ∷ xs) a h k = ground (arith, find-append q xs a)

  pub keep-append_of_none :
      (p q : A → Bool) (xs ys : List A)
      → count q xs ≡ 0
      → ((x : A) → q x ≡ false → p x ≡ false)
      → keep p (xs ++ ys) ≡ keep p ys
  unfolding keep count
  keep-append_of_none p q [] ys h imp = refl
  keep-append_of_none p q (x ∷ xs) ys h imp = ground (arith, imp x, keep-append_of_none p q xs ys)

-- The rows that a COPY writes are all pending rows of the job.
pub keep-copy_rows :
    (id n : ℕ) (ps : List SearchJobResult)
    → keep (of_job_in id is_pending) (copy_rows id n ps) ≡ copy_rows id n ps
unfolding keep copy_rows is_pending
keep-copy_rows id n [] = refl
keep-copy_rows id n (p ∷ ps) = ground (arith, keep-copy_rows id (suc n) ps)

module _ {ℓ} {A : Type ℓ} where
  pub update-eq-map :
      (p : A → Bool) (f : A → A) (xs : List A)
      → update p f xs ≡ map (λ x. if p x then f x else x) xs
  unfolding update
  update-eq-map p f [] = refl
  update-eq-map p f (x ∷ xs) = ap (λ ys. (if p x then f x else x) ∷ ys) (update-eq-map p f xs)
