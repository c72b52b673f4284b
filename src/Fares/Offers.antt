-- ===== src/Fares/Offers.antt =====
-- What the search of offers returns.
use flight_circle_search.Fares.Fallback.{
  SortsSlices, IsSortedByPrice, IsSortedBy, IsOrder, is_cheaper-IsOrder,
}
use flight_circle_search.Fares.{SearchRequest, Fare}
use flight_circle_search.Fares.Duffel.{
  DuffelCalls, Offer, collect, map_offer, appended, map_duffel_offers, Slice, Segment,
  parse_flexible_time, offer_fare, of_segments, of_slices, of_offers, create_offer_request,
  duffel_search, costs_less,
}
use flight_circle_search.Fares.Travelpayouts.{validate_request, is_cheaper}
use flight_circle_search.Floats.{Floats}
use flight_circle_search.Base.{
  Bool-cases, ne_of_beq, beq_of_ne, nat_eq, ◌==◌, ◌≡◌, ◌↔◌, subst, refl, inl, inr, Option, none,
  some, List, [], ◌∷◌, Memᴰ, ok, arith, ◌≢◌,
}

costs_less-IsOrder : IsOrder costs_less
unfolding costs_less is_cheaper
costs_less-IsOrder = record { asym = is_cheaper-IsOrder.asym; trans = is_cheaper-IsOrder.trans }

by_cost : (fares : List Fare) → IsSortedBy costs_less fares → IsSortedByPrice fares
unfolding costs_less is_cheaper
by_cost [] h = tt
by_cost (f ∷ fares) h = (h.0, by_cost fares h.1)

module _ {fl : Floats} (calls : DuffelCalls fl) (req : SearchRequest) where
  -- The offer that gives a fare.
  abbrev pub IsFrom : List Offer → Fare → Type 0
  IsFrom offers f = (o : Offer) × Memᴰ o offers × (map_offer calls req o ≡ some f)

  IsFrom-head :
      (o : Offer) (offers : List Offer) (f : Fare) (x : Option Fare) (rest : List Fare)
      → map_offer calls req o ≡ x
      → (Memᴰ f rest → IsFrom offers f)
      → Memᴰ f (appended calls x rest)
      → IsFrom (o ∷ offers) f
  IsFrom-head o offers f none rest e later m =
      let (p, inside, q) = later m in (p, Memᴰ.tail inside, q)
  IsFrom-head o offers f (some g) rest e later (Memᴰ.head q) = (o, Memᴰ.head refl, cc)
  IsFrom-head o offers f (some g) rest e later (Memᴰ.tail m) =
      let (p, inside, q) = later m in (p, Memᴰ.tail inside, q)

  collected-IsFrom :
      (offers : List Offer) (f : Fare) → Memᴰ f (collect calls req offers) → IsFrom offers f
  unfolding collect
  collected-IsFrom [] f m = elim m [ ]
  collected-IsFrom (o ∷ offers) f m =
      IsFrom-head o offers f (map_offer calls req o) (collect calls req offers) refl
        (collected-IsFrom offers f) m

  into_tail :
      (f : Fare) (x : Option Fare) (rest : List Fare) → Memᴰ f rest → Memᴰ f (appended calls x rest)
  into_tail f none rest m = m
  into_tail f (some g) rest m = Memᴰ.tail m

  collected_of :
      (offers : List Offer) (f : Fare) (o : Offer)
      → Memᴰ o offers
      → map_offer calls req o ≡ some f
      → Memᴰ f (collect calls req offers)
  unfolding collect
  collected_of [] f o m e = elim m [ ]
  collected_of (p ∷ offers) f o (Memᴰ.head q) e =
      subst (λ x. Memᴰ f (appended calls x (collect calls req offers))) {x = some f}
        {y = map_offer calls req p} (cc) (Memᴰ.head refl)
  collected_of (p ∷ offers) f o (Memᴰ.tail m) e =
      into_tail f (map_offer calls req p) _ (collected_of offers f o m e)

  -- The fare of an offer that has a first slice with a first segment, whose time of departure is not the zero time.
  abbrev pub IsMapped : Offer → Fare → Type 0
  IsMapped o f =
      (slice : Slice) × (slices : List Slice) × (first : Segment) × (rest : List Segment)
      × (o.slices ≡ slice ∷ slices)
      × (slice.segments ≡ first ∷ rest)
      × (parse_flexible_time calls first.departing_at ≢ 0)
      × (f ≡ offer_fare calls req o slice first rest (parse_flexible_time calls first.departing_at))

  segments_fare :
      (o : Offer) (slice : Slice) (slices : List Slice) (f : Fare)
      → o.slices ≡ slice ∷ slices
      → (segments : List Segment) → slice.segments ≡ segments
      → of_segments calls req o slice segments ≡ some f
      → IsMapped o f
  segments_fare o slice slices f e [] g h = ground arith
  segments_fare o slice slices f e (first ∷ rest) g h =
      elim (Bool-cases (parse_flexible_time calls first.departing_at == 0)) [
        | inl q ↦ cc (rw q at h)
        | inr q ↦ (slice, slices, first, rest, e, g, ne_of_beq _ 0 q, cc (rw q at h))
      ]

  slices_fare :
      (o : Offer) (f : Fare) (slices : List Slice)
      → o.slices ≡ slices
      → of_slices calls req o slices ≡ some f
      → IsMapped o f
  slices_fare o f [] e h = ground arith
  slices_fare o f (slice ∷ slices) e h = segments_fare o slice slices f e slice.segments refl h

  map_offer_iff : (o : Offer) (f : Fare) → (map_offer calls req o ≡ some f) ↔ IsMapped o f
  unfolding map_offer
  map_offer_iff o f = (
    slices_fare o f o.slices refl,
    λ (slice, slices, first, rest, e, g, n, h). rw (map_offer, e, g, beq_of_ne _ 0 n) cc,
  )

  abbrev pub Maps : List Offer → List Fare → Type 0
  Maps offers out =
      IsSortedByPrice out × ((f : Fare) → Memᴰ f out ↔ ((o : Offer) × Memᴰ o offers × IsMapped o f))

  map_duffel_offers-Maps :
      (offers : List Offer)
      → SortsSlices calls.sort_slice
      → Maps offers (map_duffel_offers calls req offers)
  unfolding map_duffel_offers
  map_duffel_offers-Maps offers s = (
    by_cost _ (s.sorted costs_less (collect calls req offers) costs_less-IsOrder),
    λ f. (
      λ m.
          let (o, inside, e) =
            collected-IsFrom offers f ((s.same costs_less (collect calls req offers) f).0 m) in
          (o, inside, (map_offer_iff o f).0 e),
      λ (o, m, h).
          (s.same costs_less (collect calls req offers) f).1
            (collected_of offers f o m ((map_offer_iff o f).1 h)),
    ),
  )

  of_offers-Maps :
      (offers : List Offer)
      → SortsSlices calls.sort_slice
      → Maps offers (of_offers calls req offers)
  of_offers-Maps [] s = (tt, λ f. (λ m. elim m [ ], λ (o, m, h). elim m [ ]))
  of_offers-Maps (o ∷ offers) s = map_duffel_offers-Maps (o ∷ offers) s

  -- What the search gives, in the terms of the code.
  pub duffel_search-Maps :
      (offers : List Offer)
      → SortsSlices calls.sort_slice
      → validate_request req ≡ none
      → create_offer_request calls req ≡ ok offers
      → (out : List Fare) × (duffel_search calls req ≡ ok out) × Maps offers out
  unfolding duffel_search
  duffel_search-Maps offers s v c =
      (of_offers calls req offers, rw (duffel_search, v, c) refl, of_offers-Maps offers s)
