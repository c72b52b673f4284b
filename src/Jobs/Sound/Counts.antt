-- ===== src/Jobs/Sound/Counts.antt =====
-- Counts on the tables, and predicates on all rows of a table that is updated.
use flight_circle_search.Base.{
  some, ℕ, suc, ◌+◌, ◌≤◌, ◌≡◌, refl, ap, Bool, true, false, not, ◌&&◌, List, [], ◌∷◌, arith, All,
  Memᴰ, count, keep, nat_eq, ◌==◌, if◌then◌else◌, Bool-cases, inl, inr, length,
}
use flight_circle_search.Jobs.{SearchJobResult, RowStatus, is_pending}
use flight_circle_search.Jobs.Repository.{update, of_job, of_job_in, copy_rows, claim_first}
use flight_circle_search.Jobs.Sound.{is_row}

module _ {ℓ} {A : Type ℓ} where
  pub count-keep-le : (p q : A → Bool) (xs : List A) → count p (keep q xs) ≤ count p xs
  unfolding count keep
  count-keep-le p q [] = omega arith
  count-keep-le p q (x ∷ xs) = ground (arith, count-keep-le p q xs)

  -- What passes a test is kept or dropped.
  pub count-keep-not :
      (p q : A → Bool) (xs : List A)
      → count p (keep (λ x. not (q x)) xs) + count (λ x. p x && q x) xs ≡ count p xs
  unfolding count keep
  count-keep-not p q [] = omega arith
  count-keep-not p q (x ∷ xs) = ground (arith, count-keep-not p q xs)

  pub count-update-le :
      (q p : A → Bool) (f : A → A) (xs : List A)
      → ((x : A) → q x ≡ false → q (f x) ≡ false)
      → count q (update p f xs) ≤ count q xs
  unfolding count update
  count-update-le q p f [] h = omega arith
  count-update-le q p f (x ∷ xs) h = ground (arith, h x, count-update-le q p f xs h)

  pub count_mono :
      (p q : A → Bool) (xs : List A) → ((x : A) → p x ≡ true → q x ≡ true) → count p xs ≤ count q xs
  unfolding count
  count_mono p q [] h = omega arith
  count_mono p q (x ∷ xs) h = ground (arith, h x, count_mono p q xs h)

  pub count-pos_of_mem :
      (p : A → Bool) {a : A} (xs : List A) → Memᴰ a xs → p a ≡ true → 1 ≤ count p xs
  unfolding count
  count-pos_of_mem p [] m h = elim m [ ]
  count-pos_of_mem p {a} (x ∷ xs) (Memᴰ.head e) h = ground (arith, ap p e)
  count-pos_of_mem p (x ∷ xs) (Memᴰ.tail m) h = ground (arith, count-pos_of_mem p xs m h)

module _ {ℓ κ} {A : Type ℓ} (P : A → Type κ) where
  pub All-update :
      (p : A → Bool) (f : A → A) (xs : List A)
      → All P xs
      → ((x : A) → Memᴰ x xs → p x ≡ true → P x → P (f x))
      → All P (update p f xs)
  unfolding update
  All-update p f [] h k = tt
  All-update p f (x ∷ xs) h k = (
    elim (Bool-cases (p x)) [ inl e ↦ rw e (k x (Memᴰ.head refl) e h.0) | inr e ↦ rw e h.0 ],
    All-update p f xs h.1 (λ y m. k y (Memᴰ.tail m)),
  )

module _ {ℓ κ μ} {A : Type ℓ} {P : A → Type κ} {Q : A → Type μ} where
  pub All-map : (xs : List A) → All P xs → ((x : A) → Memᴰ x xs → P x → Q x) → All Q xs
  All-map [] h k = tt
  All-map (x ∷ xs) h k = (k x (Memᴰ.head refl) h.0, All-map xs h.1 (λ y m. k y (Memᴰ.tail m)))

-- A test that only rows of one job pass, on the rows whose job passes another.
pub count-keep_job :
    (p : SearchJobResult → Bool) (q : ℕ → Bool) (id : ℕ) (rs : List SearchJobResult)
    → ((r : SearchJobResult) → p r ≡ true → r.job_id ≡ id)
    → count p (keep (λ r. q r.job_id) rs) ≡ (if q id then count p rs else 0)
unfolding keep count
count-keep_job p q id [] h = ground arith
count-keep_job p q id (r ∷ rs) h = elim (Bool-cases (p r)) [
  | inl e ↦ ground (arith, count-keep_job p q id rs h, ap q (h r e))
  | inr e ↦ ground (arith, count-keep_job p q id rs h)
]

pub of_job_in_job :
    (id : ℕ) (t : RowStatus → Bool) (r : SearchJobResult) → of_job_in id t r ≡ true → r.job_id ≡ id
of_job_in_job id t r h = ground arith

-- The rows of a COPY: all of the job, open, numbered from `n`.
pub count-copy_rows :
    (id n : ℕ) (ps : List SearchJobResult) → count (of_job id) (copy_rows id n ps) ≡ length ps
unfolding count copy_rows
count-copy_rows id n [] = refl
count-copy_rows id n (p ∷ ps) = ground (arith, count-copy_rows id (suc n) ps)

pub count-copy_rows_other :
    (k id n : ℕ) (ps : List SearchJobResult)
    → (id == k) ≡ false
    → count (of_job k) (copy_rows id n ps) ≡ 0
unfolding count copy_rows
count-copy_rows_other k id n [] h = refl
count-copy_rows_other k id n (p ∷ ps) h = ground (arith, count-copy_rows_other k id (suc n) ps h)

pub count-copy_rows_below :
    (k id n : ℕ) (ps : List SearchJobResult) → suc k ≤ n → count (is_row k) (copy_rows id n ps) ≡ 0
unfolding count copy_rows
count-copy_rows_below k id n [] h = refl
count-copy_rows_below k id n (p ∷ ps) h =
    ground (arith, count-copy_rows_below k id (suc n) ps (omega arith))

pub count-copy_rows_above :
    (k id n : ℕ) (ps : List SearchJobResult)
    → n + length ps ≤ k
    → count (is_row k) (copy_rows id n ps) ≡ 0
unfolding count copy_rows
count-copy_rows_above k id n [] h = refl
count-copy_rows_above k id n (p ∷ ps) h =
    ground (arith, count-copy_rows_above k id (suc n) ps (omega arith))

pub count-copy_rows_one :
    (k id n : ℕ) (ps : List SearchJobResult) → count (is_row k) (copy_rows id n ps) ≤ 1
unfolding count copy_rows
count-copy_rows_one k id n [] = omega arith
count-copy_rows_one k id n (p ∷ ps) = elim (Bool-cases (n == k)) [
  | inl e ↦ ground (arith, count-copy_rows_below k id (suc n) ps (ground arith))
  | inr e ↦ ground (arith, count-copy_rows_one k id (suc n) ps)
]

-- A claim leaves the ids, the owners and the number of open rows.
pub count-claim_first :
    (q : SearchJobResult → Bool) (id now : ℕ) (rs : List SearchJobResult)
    → ((r : SearchJobResult)
        → is_pending r.status ≡ true
        → q (record r { status = RowStatus.claimed; completed_at = some now }) ≡ q r)
    → count q (claim_first id now rs).1 ≡ count q rs
unfolding count claim_first
count-claim_first q id now [] h = refl
count-claim_first q id now (r ∷ rs) h = ground (arith, h r, count-claim_first q id now rs h)
