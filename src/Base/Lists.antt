-- ===== src/Base/Lists.antt =====
-- Lists measured by native numbers, predicates on all elements, and the loops over slices.
use Prim.Native.Nat.{ℕ, zero, suc, ◌+◌, ◌≤◌}
use mathlib.Core.Path.{◌≡◌, refl, subst, sym}
use mathlib.Core.Logic.{◌⊎◌, inl, inr}
use mathlib.Core.Bool.{Bool, true}
use mathlib.Core.List.{List, [], ◌∷◌, ◌++◌, Memᴰ}
use native.Mathlib.Omega.{arith}
use flight_circle_search.Base.Tests.{if◌then◌else◌, Bool-cases}

module _ {ℓ} {A : Type ℓ} where
  abbrev pub length : List A → ℕ
  length [] = 0
  length (x ∷ xs) = suc (length xs)

  abbrev pub take : ℕ → List A → List A
  take zero xs = []
  take (suc n) [] = []
  take (suc n) (x ∷ xs) = x ∷ take n xs

  abbrev pub drop : ℕ → List A → List A
  drop zero xs = xs
  drop (suc n) [] = []
  drop (suc n) (x ∷ xs) = drop n xs

  abbrev pub replicate : ℕ → A → List A
  replicate zero a = []
  replicate (suc n) a = a ∷ replicate n a

  -- `append(result, x)` in a loop under a test.
  unfoldable pub keep : (A → Bool) → List A → List A
  keep p [] = []
  keep p (x ∷ xs) = let rest = keep p xs in if p x then x ∷ rest else rest

  -- How many elements pass a test.
  unfoldable pub count : (A → Bool) → List A → ℕ
  count p [] = 0
  count p (x ∷ xs) = let rest = count p xs in if p x then suc rest else rest

  pub length-append : (xs ys : List A) → length (xs ++ ys) ≡ length xs + length ys
  length-append [] ys = omega arith
  length-append (x ∷ xs) ys = omega (arith, length-append xs ys)

  pub count-append : (p : A → Bool) (xs ys : List A) → count p (xs ++ ys) ≡ count p xs + count p ys
  unfolding count
  count-append p [] ys = omega arith
  count-append p (x ∷ xs) ys = ground (arith, count-append p xs ys)

  pub count-le-length : (p : A → Bool) (xs : List A) → count p xs ≤ length xs
  unfolding count
  count-le-length p [] = omega arith
  count-le-length p (x ∷ xs) = ground (arith, count-le-length p xs)

  pub mem_append_left : {a : A} (xs ys : List A) → Memᴰ a xs → Memᴰ a (xs ++ ys)
  mem_append_left [] ys m = elim m [ ]
  mem_append_left (x ∷ xs) ys (Memᴰ.head e) = Memᴰ.head e
  mem_append_left (x ∷ xs) ys (Memᴰ.tail m) = Memᴰ.tail (mem_append_left xs ys m)

  pub mem_append_right : {a : A} (xs ys : List A) → Memᴰ a ys → Memᴰ a (xs ++ ys)
  mem_append_right [] ys m = m
  mem_append_right (x ∷ xs) ys m = Memᴰ.tail (mem_append_right xs ys m)

  pub mem-append_cases : {a : A} (xs ys : List A) → Memᴰ a (xs ++ ys) → Memᴰ a xs ⊎ Memᴰ a ys
  mem-append_cases [] ys m = inr m
  mem-append_cases (x ∷ xs) ys (Memᴰ.head e) = inl (Memᴰ.head e)
  mem-append_cases (x ∷ xs) ys (Memᴰ.tail m) = elim (mem-append_cases xs ys m) [
    | inl l ↦ inl (Memᴰ.tail l)
    | inr r ↦ inr r
  ]

  -- What a filtering loop keeps: exactly the elements that pass.
  pub mem-keep :
      (p : A → Bool) {a : A} (xs : List A) → Memᴰ a (keep p xs) → Memᴰ a xs × (p a ≡ true)
  unfolding keep
  mem-keep p [] m = elim m [ ]
  mem-keep p {a} (x ∷ xs) m = elim (Bool-cases (p x)) [
    | inl e ↦ elim (subst (λ b. Memᴰ a (if b then x ∷ keep p xs else keep p xs)) e m) [
      | Memᴰ.head q ↦ (Memᴰ.head q, subst (λ y. p y ≡ true) (sym q) e)
      | Memᴰ.tail r ↦ let (here, ok) = mem-keep p xs r in (Memᴰ.tail here, ok)
    ]
    | inr e ↦
        let (here, ok) =
          mem-keep p xs (subst (λ b. Memᴰ a (if b then x ∷ keep p xs else keep p xs)) e m) in
        (Memᴰ.tail here, ok)
  ]

module _ {ℓ κ} {A : Type ℓ} (P : A → Type κ) where
  abbrev pub All : List A → Type κ
  All [] = Unit
  All (x ∷ xs) = P x × All xs

module _ {ℓ κ} {A : Type ℓ} (P : A → Type κ) where
  pub All-at : {a : A} (xs : List A) → All P xs → Memᴰ a xs → P a
  All-at [] h m = elim m [ ]
  All-at (x ∷ xs) h (Memᴰ.head e) = subst P (sym e) h.0
  All-at (x ∷ xs) h (Memᴰ.tail m) = All-at xs h.1 m

  pub All-append : (xs ys : List A) → All P xs → All P ys → All P (xs ++ ys)
  All-append [] ys hx hy = hy
  All-append (x ∷ xs) ys hx hy = (hx.0, All-append xs ys hx.1 hy)

  pub All-append_inv : (xs ys : List A) → All P (xs ++ ys) → All P xs × All P ys
  All-append_inv [] ys h = (tt, h)
  All-append_inv (x ∷ xs) ys h = let (l, r) = All-append_inv xs ys h.1 in ((h.0, l), r)

  pub All-of : (xs : List A) → ((a : A) → Memᴰ a xs → P a) → All P xs
  All-of [] h = tt
  All-of (x ∷ xs) h = (h x (Memᴰ.head refl), All-of xs (λ a m. h a (Memᴰ.tail m)))

module _ {ℓ} {A : Type ℓ} where
  pub mem_keep_of :
      (p : A → Bool) {a : A} (xs : List A) → Memᴰ a xs → p a ≡ true → Memᴰ a (keep p xs)
  unfolding keep
  mem_keep_of p [] m h = elim m [ ]
  mem_keep_of p {a} (x ∷ xs) (Memᴰ.head e) h = rw (subst (λ y. p y ≡ true) e h) (Memᴰ.head e)
  mem_keep_of p {a} (x ∷ xs) (Memᴰ.tail m) h = elim (Bool-cases (p x)) [
    | inl q ↦ rw q (Memᴰ.tail (mem_keep_of p xs m h))
    | inr q ↦ rw q (mem_keep_of p xs m h)
  ]
