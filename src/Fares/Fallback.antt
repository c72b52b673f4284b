-- ===== src/Fares/Fallback.antt =====
-- The search of a whole month when a day has no fare.
use flight_circle_search.Base.{
  ℕ, ◌≡◌, refl, ◌≢◌, ◌↔◌, ◌⊎◌, false, List, [], ◌∷◌, Memᴰ, All, All-at, All-of, Result, ok, err,
  arith, take, signed_lt, Bool, true,
}
use flight_circle_search.Floats.{Floats}
use flight_circle_search.Fares.{FareError, Fare, SearchRequest, provider_down}
use flight_circle_search.Fares.Travelpayouts.{
  Calls, search_at_date, fetch_with_fallback, is_cheaper,
}

-- Each price is at least every earlier one.
abbrev pub IsSortedByPrice : List Fare → Type 0
IsSortedByPrice [] = Unit
IsSortedByPrice (f ∷ fares) =
    All (λ (g : Fare). signed_lt g.price f.price ≡ false) fares × IsSortedByPrice fares

-- No element is less than an earlier one.
abbrev pub IsSortedBy : (Fare → Fare → Bool) → List Fare → Type 0
IsSortedBy less [] = Unit
IsSortedBy less (f ∷ fares) = All (λ (g : Fare). less g f ≡ false) fares × IsSortedBy less fares

-- A strict weak order.
pub record IsOrder (less : Fare → Fare → Bool) : Type 0 where
  pub asym : (f g : Fare) → less f g ≡ true → less g f ≡ false
  pub trans : (f g h : Fare) → less g f ≡ false → less h g ≡ false → less h f ≡ false

-- What package sort promises of `sort.Slice`: the same elements, in order if the function that it is given is one.
pub record SortsSlices (sort : (Fare → Fare → Bool) → List Fare → List Fare) : Type 0 where
  pub same :
      (less : Fare → Fare → Bool) (fares : List Fare) (f : Fare)
      → Memᴰ f (sort less fares) ↔ Memᴰ f fares
  pub sorted :
      (less : Fare → Fare → Bool) (fares : List Fare)
      → IsOrder less
      → IsSortedBy less (sort less fares)

pub is_cheaper-IsOrder : IsOrder is_cheaper
unfolding is_cheaper
is_cheaper-IsOrder = record {
  asym = λ f g h. asym_of f.price g.price h;
  trans = λ f g h a b. trans_of f.price g.price h.price a b;
}
  where
    asym_of : (a b : ℕ) → signed_lt a b ≡ true → signed_lt b a ≡ false
    asym_of a b h = ground arith

    trans_of : (a b c : ℕ) → signed_lt b a ≡ false → signed_lt c b ≡ false → signed_lt c a ≡ false
    trans_of a b c h k = ground arith

pub by_price : (fares : List Fare) → IsSortedBy is_cheaper fares → IsSortedByPrice fares
unfolding is_cheaper
by_price [] h = tt
by_price (f ∷ fares) h = (h.0, by_price fares h.1)

not_below_itself : (n : ℕ) → signed_lt n n ≡ false
not_below_itself n = ground arith

cheapest_of_sorted :
    (sorted fares : List Fare)
    → ((f : Fare) → Memᴰ f sorted ↔ Memᴰ f fares)
    → IsSortedByPrice sorted
    → {f : Fare} → Memᴰ f fares
    → (g : Fare) × (take 1 sorted ≡ g ∷ [])
      × Memᴰ g fares
      × All (λ (x : Fare). signed_lt x.price g.price ≡ false) fares
cheapest_of_sorted [] fares same s {f} m = elim ((same f).1 m) [ ]
cheapest_of_sorted (g ∷ rest) fares same s m = (
  g,
  refl,
  (same g).0 (Memᴰ.head refl),
  All-of _ fares (λ x inside.
      All-at (λ (y : Fare). signed_lt y.price g.price ≡ false) (g ∷ rest)
        (not_below_itself g.price, s.0) ((same x).1 inside)),
)

module _ {fl : Floats} (calls : Calls fl) (req : SearchRequest) where
  abbrev pub for_day : Result FareError (List Fare)
  for_day = search_at_date calls req.origin req.destination req.date

  abbrev pub for_month : Result FareError (List Fare)
  for_month = search_at_date calls req.origin req.destination (take 7 req.date)

  -- If the day has no fare and its month has some, and sort.Slice keeps its promise for orders, the search gives one fare: one of the month's that is no dearer than any other of the month.
  pub fetch_with_fallback_cheapest :
      (f : Fare) (fares : List Fare)
      → SortsSlices calls.sort_slice
      → for_day ≡ ok []
      → for_month ≡ ok (f ∷ fares)
      → (g : Fare) × (fetch_with_fallback calls req ≡ ok (g ∷ []))
        × Memᴰ g (f ∷ fares)
        × All (λ (x : Fare). signed_lt x.price g.price ≡ false) (f ∷ fares)
  unfolding fetch_with_fallback
  fetch_with_fallback_cheapest f fares s d m =
      let (g, e, inside, low) =
        cheapest_of_sorted (calls.sort_slice is_cheaper (f ∷ fares)) (f ∷ fares)
          (s.same is_cheaper (f ∷ fares))
          (by_price _ (s.sorted is_cheaper (f ∷ fares) is_cheaper-IsOrder)) (Memᴰ.head refl) in
      (g, rw (d, m, e), inside, low)

  -- The search fails exactly with an error of the day, or, if the day has no fare, with an error of its month, but not if the provider is down only then.
  pub fetch_with_fallback_error :
      (e : FareError)
      → (fetch_with_fallback calls req ≡ err e)
        ↔ ((for_day ≡ err e) ⊎ ((for_day ≡ ok []) × (for_month ≡ err e) × (e ≢ provider_down)))
  unfolding fetch_with_fallback
  fetch_with_fallback_error e = ground arith
