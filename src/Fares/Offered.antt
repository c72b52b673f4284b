-- ===== src/Fares/Offered.antt =====
-- The fares of the offers, field by field.
use flight_circle_search.Base.{
  ℕ, ◌+◌, ◌%◌, ◌≡◌, ◌≢◌, refl, sym, ap, ◌∙◌, ◌↔◌, ◌⊎◌, inl, inr, none, some, Option-cases, false,
  List, [], ◌∷◌, ◌++◌, Memᴰ, Bytes, codes, ok, arith, length, nat_eq, ◌==◌, if◌then◌else◌,
}
use flight_circle_search.Floats.{Floats}
use flight_circle_search.Fares.{SearchRequest, Fare}
use flight_circle_search.Fares.Duffel.{
  DuffelCalls, Offer, Slice, Segment, first_nonempty, display_flight, last, add_durations,
  total_duration, parse_flexible_time, parse_price_cents, offer_fare, create_offer_request,
  duffel_search,
}
use flight_circle_search.Fares.Durations.{parse_iso_duration}
use flight_circle_search.Fares.Travelpayouts.{validate_request}
use flight_circle_search.Fares.Fallback.{SortsSlices, IsSortedByPrice}
use flight_circle_search.Fares.Offers.{IsMapped, duffel_search-Maps}

abbrev pub or_else : Bytes → Bytes → Bytes
or_else a b = if length a == 0 then b else a

-- The last of these segments.
abbrev pub IsLast : List Segment → Segment → Type 0
IsLast segments s = (front : List Segment) × (segments ≡ front ++ s ∷ [])

-- The sum of the durations, which are words.
abbrev pub sum_of : List Segment → ℕ
sum_of [] = 0
sum_of (s ∷ rest) = parse_iso_duration s.duration + sum_of rest

or_else_lem : (a b : Bytes) → first_nonempty a b ≡ or_else a b
or_else_lem [] b = refl
or_else_lem (c ∷ a) b = ground arith

number_with :
    (airline number : Bytes)
    → display_flight airline number ≡ (
        if length number == 0
        then []
        else (if length airline == 0 then number else airline ++ codes " " ++ number))
number_with airline [] = refl
number_with [] (d ∷ number) = ground arith
number_with (c ∷ airline) (d ∷ number) = ground arith

last-IsLast : (s : Segment) (rest : List Segment) → IsLast (s ∷ rest) (last s rest)
unfolding last
last-IsLast s [] = ([], refl)
last-IsLast s (t ∷ rest) = let (front, e) = last-IsLast t rest in (s ∷ front, ap (λ x. s ∷ x) e)

tail_of : {s t : Segment} {xs ys : List Segment} → s ∷ xs ≡ t ∷ ys → xs ≡ ys
tail_of h = cc

head_of : {s t : Segment} {xs ys : List Segment} → s ∷ xs ≡ t ∷ ys → s ≡ t
head_of h = cc

cons_empty : {s : Segment} {xs : List Segment} → s ∷ xs ≢ []
cons_empty h = ground arith

last_unique :
    (s x : Segment) (rest front : List Segment) → s ∷ rest ≡ front ++ x ∷ [] → last s rest ≡ x
unfolding last
last_unique s x [] [] e = head_of e
last_unique s x (t ∷ rest) [] e = absurd (cons_empty (tail_of e))
last_unique s x [] (c ∷ []) e = absurd (cons_empty (sym (tail_of e)))
last_unique s x [] (c ∷ d ∷ front) e = absurd (cons_empty (sym (tail_of e)))
last_unique s x (t ∷ rest) (c ∷ front) e = last_unique t x rest front (tail_of e)

mod_step : (m d r : ℕ) → ((m + d) + r) % 18446744073709551616 ≡ (m + (d + r)) % 18446744073709551616
mod_step m d r = ap (λ n. n % 18446744073709551616) (omega arith)

mod_in :
    (m d : ℕ)
    → (m % 18446744073709551616 + d) % 18446744073709551616 ≡ (m + d) % 18446744073709551616
mod_in m d = omega arith

durations_sum :
    (m : ℕ) (rest : List Segment)
    → add_durations (m % 18446744073709551616) rest ≡ (m + sum_of rest) % 18446744073709551616
unfolding add_durations
durations_sum m [] = omega arith
durations_sum m (s ∷ rest) =
    ap (λ n. add_durations n rest) (mod_in m (parse_iso_duration s.duration))
    ∙ durations_sum (m + parse_iso_duration s.duration) rest
    ∙ mod_step m (parse_iso_duration s.duration) (sum_of rest)

zero_in : (n : ℕ) → (0 + n) % 18446744073709551616 ≡ n % 18446744073709551616
zero_in n = ap (λ k. k % 18446744073709551616) (omega arith)

-- The duration of a slice: its own, or that of its segments if it has none.
abbrev pub lasts : Slice → ℕ
lasts slice =
    if parse_iso_duration slice.duration == 0
    then sum_of slice.segments % 18446744073709551616
    else parse_iso_duration slice.duration

lasts_lem : (slice : Slice) → total_duration slice ≡ lasts slice
lasts_lem slice =
    ap
      (λ n. if parse_iso_duration slice.duration == 0 then n else parse_iso_duration slice.duration)
      (durations_sum 0 slice.segments ∙ zero_in (sum_of slice.segments))

module _ {fl : Floats} (calls : DuffelCalls fl) (req : SearchRequest) where
  -- A text that is a time other than the zero time, as it is or in UTC.
  abbrev pub IsTime : Bytes → ℕ → Type 0
  IsTime text t =
      (t ≢ 0)
      × (text ≢ [])
      × ((calls.parse_time text ≡ some t)
          ⊎ ((calls.parse_time text ≡ none) × (calls.parse_time (text ++ codes "Z") ≡ some t)))

  -- The fare of an offer with this slice, and of this its first and its last segment.
  abbrev pub described : Offer → Slice → Segment → List Segment → Segment → ℕ → Fare
  described o slice first rest final departure =
      let code = or_else first.operating_carrier.iata_code o.owner.iata_code in
      let number = first.operating_carrier_flight_number in
      record {
        origin = req.origin;
        destination = req.destination;
        origin_airport = first.origin.iata_code;
        destination_airport = final.destination.iata_code;
        airline = or_else code (or_else first.operating_carrier.name o.owner.name);
        flight_number =
            if length number == 0
            then []
            else (if length code == 0 then number else code ++ codes " " ++ number);
        departure_at = departure;
        price = elim (calls.scan_float o.total_amount) [
          | none ↦ 0
          | some amount ↦ fl.round (fl.mul amount (fl.of_ℕ 100))
        ];
        currency = o.total_currency;
        duration = lasts slice;
        transfers = length rest;
        link = codes "https://app.duffel.com/book/offers/" ++ o.id;
        cached = false;
      }

  -- The offer has a first slice with a first segment, whose text of departure is a time.
  abbrev pub IsFareOf : Offer → Fare → Type 0
  IsFareOf o f =
      (slice : Slice) × (slices : List Slice) × (first : Segment) × (rest : List Segment)
      × (final : Segment) × (departure : ℕ) × (o.slices ≡ slice ∷ slices)
      × (slice.segments ≡ first ∷ rest)
      × IsLast (first ∷ rest) final
      × IsTime first.departing_at departure
      × (f ≡ described o slice first rest final departure)

  offer_fare_lem :
      (o : Offer) (slice : Slice) (first : Segment) (rest : List Segment) (departure : ℕ)
      → offer_fare calls req o slice first rest departure
        ≡ described o slice first rest (last first rest) departure
  unfolding offer_fare parse_price_cents
  offer_fare_lem o slice first rest departure =
      rw
        (
          or_else_lem first.operating_carrier.iata_code o.owner.iata_code,
          or_else_lem first.operating_carrier.name o.owner.name,
          or_else_lem (or_else first.operating_carrier.iata_code o.owner.iata_code)
              (or_else first.operating_carrier.name o.owner.name),
          number_with (or_else first.operating_carrier.iata_code o.owner.iata_code)
              first.operating_carrier_flight_number,
          lasts_lem slice,
        )
        refl

  IsTime-of :
      (text : Bytes)
      → parse_flexible_time calls text ≢ 0
      → IsTime text (parse_flexible_time calls text)
  unfolding parse_flexible_time
  IsTime-of [] n = absurd (n refl)
  IsTime-of (c ∷ s) n = elim (Option-cases (calls.parse_time (c ∷ s))) [
    | inr (t, e) ↦ (n, (λ h. ground arith), inl (rw e refl))
    | inl e ↦ elim (Option-cases (calls.parse_time ((c ∷ s) ++ codes "Z"))) [
      | inr (t, k) ↦ (n, (λ h. ground arith), inr (e, rw (e, k) refl))
      | inl k ↦ absurd (n (rw (e, k) refl))
    ]
  ]

  time_unique : (text : Bytes) (t : ℕ) → IsTime text t → parse_flexible_time calls text ≡ t
  unfolding parse_flexible_time
  time_unique [] t (n, m, e) = absurd (m refl)
  time_unique (c ∷ s) t (n, m, inl e) = rw e refl
  time_unique (c ∷ s) t (n, m, inr (e, k)) = rw (e, k) refl

  described_iff : (o : Offer) (f : Fare) → IsMapped calls req o f ↔ IsFareOf o f
  described_iff o f = (
    λ (slice, slices, first, rest, e, g, n, h). (
      slice,
      slices,
      first,
      rest,
      last first rest,
      parse_flexible_time calls first.departing_at,
      e,
      g,
      last-IsLast first rest,
      IsTime-of first.departing_at n,
      h ∙ offer_fare_lem o slice first rest _,
    ),
    λ (slice, slices, first, rest, final, departure, e, g, (front, k), time, h).
        let same = time_unique first.departing_at departure time in
        (
          slice,
          slices,
          first,
          rest,
          e,
          g,
          (λ z. time.0 (sym same ∙ z)),
          h
              ∙ ap (λ x. described o slice first rest x departure)
                  (sym (last_unique first final rest front k))
              ∙ sym (offer_fare_lem o slice first rest departure)
              ∙ ap (offer_fare calls req o slice first rest) (sym same),
        ),
  )

  -- The fares are in the order of their prices, and are those of the offers.
  abbrev pub Lists : List Offer → List Fare → Type 0
  Lists offers out =
      IsSortedByPrice out × ((f : Fare) → Memᴰ f out ↔ ((o : Offer) × Memᴰ o offers × IsFareOf o f))

  -- For a valid request whose offers were read, and if sort.Slice keeps its promise for orders, the search gives, in the order of their prices, exactly the fares of the offers that have a first segment with a time of departure, each field of a fare as it stands in the offer.
  pub duffel_search-Lists :
      (offers : List Offer)
      → SortsSlices calls.sort_slice
      → validate_request req ≡ none
      → create_offer_request calls req ≡ ok offers
      → (out : List Fare) × (duffel_search calls req ≡ ok out) × Lists offers out
  duffel_search-Lists offers s v c =
      let (out, e, found) = duffel_search-Maps calls req offers s v c in
      (
        out,
        e,
        (
          found.0,
          λ f. (
            λ m. let (o, there, is) = (found.1 f).0 m in (o, there, (described_iff o f).0 is),
            λ (o, there, is). (found.1 f).1 (o, there, (described_iff o f).1 is),
          ),
        ),
      )
