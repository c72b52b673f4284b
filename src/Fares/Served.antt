-- ===== src/Fares/Served.antt =====
-- What a search of fares writes to the cache, and what the next search makes of it.
use flight_circle_search.Base.{
  ◌≡◌, subst, Bool, true, false, refl, Option, none, some, List, [], ◌∷◌, map, Bytes, Result, ok,
  err, arith, Option-cases, inl, inr,
}
use flight_circle_search.Floats.{Floats}
use flight_circle_search.Fares.{FareError, Fare, SearchRequest}
use flight_circle_search.Cache.{fare_key}
use flight_circle_search.Fares.Travelpayouts.{
  Calls, search, validate_request, fetch_with_fallback, hit, fetched, of_cached,
}

module _ {fl : Floats} (calls : Calls fl) (req : SearchRequest) where
  open calls use {marshal_fares, unmarshal_fares}

  abbrev pub key_of : Bytes
  key_of = fare_key req.origin req.destination req.date

  -- The search succeeded, with fares that the provider gave for a valid request, and what was written is their encoding, under the key of the request.
  pub record IsWrite (r : Result FareError (List Fare)) (key bytes : Bytes) : Type 0 where
    pub fares : List Fare
    pub valid : validate_request req ≡ none
    pub fresh : fetch_with_fallback calls req ≡ ok fares
    pub returned : r ≡ ok fares
    pub encoded : marshal_fares fares ≡ some bytes
    pub named : key ≡ key_of

  written :
      (has_cache : Bool) (r₀ r : Result FareError (List Fare)) (key bytes : Bytes)
      (later : List (Bytes × Bytes))
      → validate_request req ≡ none
      → fetch_with_fallback calls req ≡ r₀
      → fetched calls has_cache key_of r₀ ≡ (r, (key, bytes) ∷ later)
      → (later ≡ []) × IsWrite r key bytes
  written false (ok fares) r key bytes later v q h = ground arith
  written b (err e) r key bytes later v q h = ground arith
  written true (ok fares) r key bytes later v q h = elim (Option-cases (marshal_fares fares)) [
    | inl n ↦ ground arith
    | inr (encoded, n) ↦ (
      ground arith,
      record {
        fares = fares;
        valid = v;
        fresh = q;
        returned = ground arith;
        encoded = ground arith;
        named = ground arith;
      },
    )
  ]

  -- A search writes to the cache at most once, and only the encoding of the fares that the provider gave for a valid request and that the search returned, under the key of the request.
  pub search_writes :
      (cache : Option (Bytes → Option Bytes)) {r : Result FareError (List Fare)} {key bytes : Bytes}
      {later : List (Bytes × Bytes)}
      → search calls cache req ≡ (r, (key, bytes) ∷ later)
      → (later ≡ []) × IsWrite r key bytes
  unfolding search
  search_writes none h = elim (Option-cases (validate_request req)) [
    | inl v ↦ written false (fetch_with_fallback calls req) _ _ _ _ v refl (ground arith)
    | inr (e, v) ↦ ground arith
  ]
  search_writes (some read) h = elim (Option-cases (validate_request req)) [
    | inl v ↦ elim (Option-cases (read key_of)) [
      | inl miss ↦ written true (fetch_with_fallback calls req) _ _ _ _ v refl (ground arith)
      | inr (bytes, found) ↦ ground arith
    ]
    | inr (e, v) ↦ ground arith
  ]

  -- If the cache keeps what a search wrote, and the encoding of the fares decodes to them, the next search returns the same fares, marked as cached, and writes nothing.
  pub search_again :
      (cache : Option (Bytes → Option Bytes)) (read : Bytes → Option Bytes) {fares : List Fare}
      {key bytes : Bytes}
      → search calls cache req ≡ (ok fares, (key, bytes) ∷ [])
      → read key ≡ some bytes
      → unmarshal_fares bytes ≡ ok fares
      → search calls (some read) req ≡ (ok (map hit fares), [])
  unfolding search
  search_again cache read {fares} {key} {bytes} h k d =
      let (_, w) = search_writes cache h in
      rw (search, w.valid, subst (λ x. read x ≡ some bytes) w.named k, of_cached, d)
