-- ===== src/Routes/Pairs.antt =====
-- Which pairs `GenerateAllPairs` makes.
use flight_circle_search.Base.{
  ◌*◌, ◌≤◌, ◌≡◌, refl, sym, ap, subst, ◌≢◌, ◌↔◌, inl, inr, List, [], ◌∷◌, Memᴰ, ◌==◌, bytes_eq,
  Bool-cases, arith, mem-append_cases, ne_of_beq, beq_of_ne, mem_append_left, mem_append_right,
  length, length-append,
}
use flight_circle_search.Routes.{Airport, AirportPair, pairs_from, generate_all_pairs}

module _ {F : Type 0} where
  -- The pair is one origin with one destination of another code.
  abbrev pub IsCandidate : List (Airport F) → List (Airport F) → AirportPair F → Type 0
  IsCandidate origins destinations p =
      Memᴰ p.origin origins × Memᴰ p.destination destinations × (p.origin.iata ≢ p.destination.iata)

  mem-pairs_from :
      {p : AirportPair F} (o : Airport F) (ds : List (Airport F))
      → Memᴰ p (pairs_from o ds)
      → (p.origin ≡ o) × Memᴰ p.destination ds × (o.iata ≢ p.destination.iata)
  unfolding pairs_from
  mem-pairs_from o [] m = elim m [ ]
  mem-pairs_from {p} o (d ∷ ds) m = elim (Bool-cases (o.iata == d.iata)) [
    | inl q ↦ let (a, b, c) = mem-pairs_from o ds (rw q at m) in (a, Memᴰ.tail b, c)
    | inr q ↦
        let n : Memᴰ p (record { origin = o; destination = d } ∷ pairs_from o ds) = rw q at m in
        elim n [
          | Memᴰ.head e ↦ (
            ap (λ (x : AirportPair F). x.origin) e,
            Memᴰ.head (ap (λ (x : AirportPair F). x.destination) e),
            subst (λ (x : AirportPair F). o.iata ≢ x.destination.iata) (sym e)
                (ne_of_beq o.iata d.iata q),
          )
          | Memᴰ.tail r ↦ let (a, b, c) = mem-pairs_from o ds r in (a, Memᴰ.tail b, c)
        ]
  ]

  mem_pairs_from_of :
      (o d : Airport F) (ds : List (Airport F))
      → Memᴰ d ds
      → o.iata ≢ d.iata
      → Memᴰ (record { origin = o; destination = d }) (pairs_from o ds)
  unfolding pairs_from
  mem_pairs_from_of o d [] m h = elim m [ ]
  mem_pairs_from_of o d (x ∷ ds) (Memᴰ.head e) h =
      rw (← e) (rw (beq_of_ne o.iata d.iata h) (Memᴰ.head refl))
  mem_pairs_from_of o d (x ∷ ds) (Memᴰ.tail m) h = elim (Bool-cases (o.iata == x.iata)) [
    | inl q ↦ rw q (mem_pairs_from_of o d ds m h)
    | inr q ↦ rw q (Memᴰ.tail (mem_pairs_from_of o d ds m h))
  ]

  mem-generate_to :
      {p : AirportPair F} (os ds : List (Airport F))
      → Memᴰ p (generate_all_pairs os ds)
      → IsCandidate os ds p
  unfolding generate_all_pairs
  mem-generate_to [] ds m = elim m [ ]
  mem-generate_to {p} (o ∷ os) ds m =
      elim (mem-append_cases (pairs_from o ds) (generate_all_pairs os ds) m) [
        | inl here ↦
            let (a, b, c) = mem-pairs_from o ds here in
            (Memᴰ.head a, b, subst (λ (x : Airport F). x.iata ≢ p.destination.iata) (sym a) c)
        | inr later ↦ let (a, b, c) = mem-generate_to os ds later in (Memᴰ.tail a, b, c)
      ]

  mem-generate_from :
      {p : AirportPair F} (os ds : List (Airport F))
      → IsCandidate os ds p
      → Memᴰ p (generate_all_pairs os ds)
  unfolding generate_all_pairs
  mem-generate_from [] ds (m, _, _) = elim m [ ]
  mem-generate_from {p} (o ∷ os) ds (Memᴰ.head e, b, c) =
      mem_append_left (pairs_from o ds) (generate_all_pairs os ds) (
        subst (λ (x : Airport F). Memᴰ p (pairs_from x ds)) e
          (mem_pairs_from_of p.origin p.destination ds b c))
  mem-generate_from (o ∷ os) ds (Memᴰ.tail a, b, c) =
      mem_append_right (pairs_from o ds) (generate_all_pairs os ds)
        (mem-generate_from os ds (a, b, c))

  -- The pairs made are exactly the candidates: an origin and a destination with different codes.
  pub mem-generate_all_pairs :
      (origins destinations : List (Airport F)) (p : AirportPair F)
      → Memᴰ p (generate_all_pairs origins destinations) ↔ IsCandidate origins destinations p
  mem-generate_all_pairs origins destinations p =
      (mem-generate_to origins destinations, mem-generate_from origins destinations)

  length-pairs_from : (o : Airport F) (ds : List (Airport F)) → length (pairs_from o ds) ≤ length ds
  unfolding pairs_from
  length-pairs_from o [] = omega arith
  length-pairs_from o (d ∷ ds) = ground (arith, length-pairs_from o ds)

  -- No more pairs are made than the capacity that is reserved for them.
  pub length-generate_all_pairs :
      (origins destinations : List (Airport F))
      → length (generate_all_pairs origins destinations) ≤ length origins * length destinations
  unfolding generate_all_pairs
  length-generate_all_pairs [] destinations = omega arith
  length-generate_all_pairs (o ∷ origins) destinations = grind (
    arith,
    length-append (pairs_from o destinations) (generate_all_pairs origins destinations),
    length-pairs_from o destinations,
    length-generate_all_pairs origins destinations,
  )
