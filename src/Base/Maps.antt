-- ===== src/Base/Maps.antt =====
-- Go maps and sets. A map is a list of entries in which an insertion overwrites; a set is a list of
-- its elements.
use mathlib.Core.Path.{◌≡◌, refl, sym, subst}
use mathlib.Core.Logic.{◌≢◌, inl, inr}
use mathlib.Core.Bool.{Bool, true, false, ◌||◌}
use mathlib.Core.Option.{Option, none, some}
use mathlib.Core.List.{List, [], ◌∷◌, Memᴰ}
use native.Mathlib.Omega.{arith}
use flight_circle_search.Base.Tests.{if◌then◌else◌, Bool-cases, Eq, ◌==◌, false_of_ne_true}

module _ {κ} {K : Type κ} ⦃e : Eq K⦄ where
  pub beq_refl : (k : K) → (k == k) ≡ true
  beq_refl k = (e.decides k k).1 refl

  pub ne_of_beq : (a b : K) → (a == b) ≡ false → a ≢ b
  ne_of_beq a b q h = cc ((e.decides a b).1 h)

  pub beq_of_ne : (a b : K) → a ≢ b → (a == b) ≡ false
  beq_of_ne a b h = false_of_ne_true (a == b) (λ q. h ((e.decides a b).0 q))

  unfoldable pub contains : K → List K → Bool
  contains k [] = false
  contains k (x ∷ xs) = k == x || contains k xs

  -- `set[x] = struct{}{}`
  unfoldable pub add : K → List K → List K
  add k xs = if contains k xs then xs else k ∷ xs

  -- `for _, x := range xs { set[x] = struct{}{} }`
  unfoldable pub set_of : List K → List K
  unfolding add
  set_of [] = []
  set_of (x ∷ xs) = add x (set_of xs)

  pub contains→mem : (k : K) (xs : List K) → contains k xs ≡ true → Memᴰ k xs
  unfolding contains
  contains→mem k [] h = cc
  contains→mem k (x ∷ xs) h = elim (Bool-cases (k == x)) [
    | inl q ↦ Memᴰ.head ((e.decides k x).0 q)
    | inr q ↦ Memᴰ.tail (contains→mem k xs (rw q at h))
  ]

  pub mem→contains : (k : K) (xs : List K) → Memᴰ k xs → contains k xs ≡ true
  unfolding contains
  mem→contains k [] m = elim m [ ]
  mem→contains k (x ∷ xs) (Memᴰ.head q) = rw ((e.decides k x).1 q)
  mem→contains k (x ∷ xs) (Memᴰ.tail m) = ground (arith, mem→contains k xs m)

  pub contains-add : (k j : K) (xs : List K) → contains k (add j xs) ≡ (k == j || contains k xs)
  unfolding contains add
  contains-add k j xs = elim (Bool-cases (contains j xs)) [
    | inl old ↦ elim (Bool-cases (k == j)) [
      | inl q ↦ rw (old, q) (subst (λ i. contains i xs ≡ true) (sym ((e.decides k j).0 q)) old)
      | inr q ↦ rw (old, q)
    ]
    | inr new ↦ rw new
  ]

  pub contains-set_of : (k : K) (xs : List K) → contains k (set_of xs) ≡ contains k xs
  unfolding set_of
  contains-set_of k [] = refl
  contains-set_of k (x ∷ xs) =
      rw (contains-add k x (set_of xs), contains-set_of k xs) (unfold contains in refl)

module _ {ℓ κ} {K : Type κ} {V : Type ℓ} ⦃e : Eq K⦄ where
  -- `v, ok := m[k]`
  unfoldable pub lookup : K → List (K × V) → Option V
  lookup k [] = none
  lookup k ((j, v) ∷ m) = if k == j then some v else lookup k m

  -- `m[k] = v`
  unfoldable pub insert : K → V → List (K × V) → List (K × V)
  insert k v [] = (k, v) ∷ []
  insert k v ((j, w) ∷ m) = if k == j then (k, v) ∷ m else (j, w) ∷ insert k v m

  pub lookup-insert :
      (j k : K) (v : V) (m : List (K × V))
      → lookup j (insert k v m) ≡ (if j == k then some v else lookup j m)
  unfolding lookup insert
  lookup-insert j k v [] = refl
  lookup-insert j k v ((i, w) ∷ m) =
      ground (arith, e.decides j k, e.decides k i, e.decides j i, lookup-insert j k v m)
