-- ===== src/Geo/Circle.antt =====
-- Which airports a search returns, and when it fails.
use flight_circle_search.Base.{
  ◌≡◌, refl, sym, ap, ◌∙◌, ◌≢◌, ◌↔◌, inl, inr, Bool, true, false, not, List, [], ◌∷◌, Memᴰ, All,
  All-of, All-at, ok, err, keep, mem-keep, mem_keep_of, ◌==◌, bytes_eq, Bool-cases, arith,
  bytes_beq_iff,
}
use flight_circle_search.Floats.{Floats}
use flight_circle_search.Geo.{Point, Airport, is_valid_point, resolve_airports, invalid_coordinates}
use flight_circle_search.Geo.Resolved.{first_of_each, in_circle, resolve_airports-eq-first_of_each}

module _ {F : Type 0} where
  abbrev pub DistinctCodes : List (Airport F) → Type 0
  DistinctCodes [] = Unit
  DistinctCodes (a ∷ rest) = All (λ (b : Airport F). b.iata ≢ a.iata) rest × DistinctCodes rest

  other_code : (a b : Airport F) → not (b.iata == a.iata) ≡ true → b.iata ≢ a.iata
  other_code a b h q = ground (arith, bytes_beq_iff b.iata a.iata)

  mem-first_of_each :
      {a : Airport F} (xs : List (Airport F)) → Memᴰ a (first_of_each xs) → Memᴰ a xs
  unfolding first_of_each
  mem-first_of_each [] m = m
  mem-first_of_each (x ∷ xs) (Memᴰ.head e) = Memᴰ.head e
  mem-first_of_each (x ∷ xs) (Memᴰ.tail m) =
      Memᴰ.tail (mem-first_of_each xs (mem-keep _ (first_of_each xs) m).0)

  first_of_each_covers :
      {a : Airport F} (xs : List (Airport F))
      → Memᴰ a xs
      → (b : Airport F) × Memᴰ b (first_of_each xs) × (b.iata ≡ a.iata)
  unfolding first_of_each
  first_of_each_covers [] m = elim m [ ]
  first_of_each_covers (x ∷ xs) (Memᴰ.head e) =
      (x, Memᴰ.head refl, ap (λ (c : Airport F). c.iata) (sym e))
  first_of_each_covers {a} (x ∷ xs) (Memᴰ.tail m) =
      let (b, inside, same) = first_of_each_covers xs m in
      elim (Bool-cases (b.iata == x.iata)) [
        | inl q ↦ (x, Memᴰ.head refl, sym ((bytes_beq_iff b.iata x.iata).0 q) ∙ same)
        | inr q ↦ (b, Memᴰ.tail (mem_keep_of _ (first_of_each xs) inside (rw q)), same)
      ]

  keep-DistinctCodes :
      (p : Airport F → Bool) (xs : List (Airport F)) → DistinctCodes xs → DistinctCodes (keep p xs)
  unfolding keep
  keep-DistinctCodes p [] h = tt
  keep-DistinctCodes p (x ∷ xs) h = elim (Bool-cases (p x)) [
    | inl q ↦ rw q (
      All-of _ (keep p xs) (λ a m. All-at _ xs h.0 (mem-keep p xs m).0),
      keep-DistinctCodes p xs h.1,
    )
    | inr q ↦ rw q (keep-DistinctCodes p xs h.1)
  ]

  first_of_each-DistinctCodes : (xs : List (Airport F)) → DistinctCodes (first_of_each xs)
  unfolding first_of_each
  first_of_each-DistinctCodes [] = tt
  first_of_each-DistinctCodes (x ∷ xs) = (
    All-of _ _ (λ a m. other_code x a (mem-keep _ (first_of_each xs) m).1),
    keep-DistinctCodes _ (first_of_each xs) (first_of_each-DistinctCodes xs),
  )

module _ (fl : Floats) (center : Point fl.Float) (radius : fl.Float) where
  -- A list that answers the search: it holds only airports in the circle, no code twice, and for every airport in the circle one of the same code.
  pub record Answers (airports found : List (Airport fl.Float)) : Type 0 where
    pub inside :
        {a : Airport fl.Float}
        → Memᴰ a found
        → Memᴰ a airports × (in_circle fl center radius a ≡ true)
    pub covers :
        {a : Airport fl.Float}
        → Memᴰ a airports
        → in_circle fl center radius a ≡ true
        → (b : Airport fl.Float) × Memᴰ b found × (b.iata ≡ a.iata)
    pub distinct : DistinctCodes found

  -- For a positive radius and a centre on the map the search succeeds, with a list that holds only airports of the input that lie in the circle, holds no code twice, and has for each airport in the circle one of the same code.
  pub resolve_airports-Answers :
      (airports : List (Airport fl.Float))
      → fl.le radius (fl.of_ℕ 0) ≡ false
      → is_valid_point fl center ≡ true
      → (found : List (Airport fl.Float)) × (resolve_airports fl center radius airports ≡ ok found)
        × Answers airports found
  resolve_airports-Answers airports r v =
      let near = keep (in_circle fl center radius) airports in
      (
        first_of_each near,
        resolve_airports-eq-first_of_each fl center radius airports r v,
        record {
          inside = λ m. mem-keep _ airports (mem-first_of_each near m);
          covers = λ m h. first_of_each_covers near (mem_keep_of _ airports m h);
          distinct = first_of_each-DistinctCodes near;
        },
      )

  -- The search fails exactly for a centre off the map with a positive radius.
  pub resolve_airports_failure :
      (airports : List (Airport fl.Float))
      → (resolve_airports fl center radius airports ≡ err invalid_coordinates)
        ↔ ((fl.le radius (fl.of_ℕ 0) ≡ false) × (is_valid_point fl center ≡ false))
  unfolding resolve_airports
  resolve_airports_failure airports = ground arith
