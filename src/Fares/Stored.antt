-- ===== src/Fares/Stored.antt =====
-- internal/fareprovider/travelpayouts.go: the provider with its cache. The token, the URL and the HTTP
-- client are part of the calls.
use flight_circle_search.Base.{
  ℕ, ◌*◌, ◌<◌, ◌≡◌, ap, ◌∙◌, Bool, true, false, Option, none, some, List, [], ◌∷◌, map, Bytes,
  Result, ok, err, is_positive, if◌then◌else◌,
}
use flight_circle_search.Floats.{Floats}
use flight_circle_search.Cache.Remote.{CacheApi}
use flight_circle_search.Cache.Contract.{IsKeeping, IsSpan}
use flight_circle_search.Fares.{FareError, Fare, SearchRequest}
use flight_circle_search.Fares.Travelpayouts.{Calls, search, validate_request}
use flight_circle_search.Fares.Served.{key_of, search_writes, search_again}

-- Whether there is a cache, and for how long it keeps fares.
pub record Travelpayouts : Type 0 where
  pub has_cache : Bool
  pub cache_ttl : ℕ

-- One hour
abbrev pub default_cache_ttl : ℕ
default_cache_ttl = 3600000000000

abbrev pub new_travelpayouts : Travelpayouts
new_travelpayouts = record { has_cache = false; cache_ttl = default_cache_ttl }

abbrev pub set_cache : ℕ → Travelpayouts → Travelpayouts
set_cache ttl t = record {
  has_cache = true;
  cache_ttl = if is_positive ttl then ttl else t.cache_ttl;
}

module _ {fl : Floats} (calls : Calls fl) (cache : CacheApi) where
  open calls use {unmarshal_fares}

  -- An error of the read, a miss among them, is dropped.
  abbrev hit_of : Result Bytes (Option Bytes) → Option Bytes
  hit_of (ok v) = v
  hit_of (err e) = none

  -- The error of a write is dropped.
  abbrev write_all : ℕ → List (Bytes × Bytes) → cache.Store → cache.Store
  write_all ttl [] s = s
  write_all ttl ((key, bytes) ∷ writes) s = write_all ttl writes (cache.write key bytes ttl s).1

  abbrev written_after :
      ℕ
      → cache.Store
      → Result FareError (List Fare) × List (Bytes × Bytes)
      → Result FareError (List Fare) × cache.Store
  written_after ttl s (r, writes) = (r, write_all ttl writes s)

  abbrev searched_after :
      Travelpayouts
      → SearchRequest
      → Result Bytes (Option Bytes) × cache.Store
      → Result FareError (List Fare) × cache.Store
  searched_after t req (v, s) =
      written_after t.cache_ttl s (search calls (some (λ key. hit_of v)) req)

  abbrev if_cached :
      Travelpayouts
      → SearchRequest
      → cache.Store
      → Bool
      → Result FareError (List Fare) × cache.Store
  if_cached t req s false = written_after t.cache_ttl s (search calls none req)
  if_cached t req s true = searched_after t req (cache.read (key_of calls req) s)

  abbrev if_valid :
      Travelpayouts
      → SearchRequest
      → cache.Store
      → Option FareError
      → Result FareError (List Fare) × cache.Store
  if_valid t req s (some e) = (err e, s)
  if_valid t req s none = if_cached t req s t.has_cache

  -- `Search`, with the store of the cache
  unfoldable pub search_stored :
      Travelpayouts → SearchRequest → cache.Store → Result FareError (List Fare) × cache.Store
  search_stored t req s = if_valid t req s (validate_request req)

  with_cache :
      (t : Travelpayouts) (req : SearchRequest) (s s1 : cache.Store)
      (v : Result Bytes (Option Bytes))
      → validate_request req ≡ none
      → t.has_cache ≡ true
      → cache.read (key_of calls req) s ≡ (v, s1)
      → search_stored t req s
        ≡ written_after t.cache_ttl s1 (search calls (some (λ key. hit_of v)) req)
  unfolding search_stored
  with_cache t req s s1 v a b c =
      ap (if_valid t req s) a ∙ ap (if_cached t req s) b ∙ ap (searched_after t req) c

  -- With a cache that keeps its promise, and a time to live of whole seconds: if a search that missed the cache got fares and could store them, a search for the same that reads the cache within that time returns these fares, marked as cached, as long as their encoding decodes to them.
  pub search_stored_again :
      IsKeeping cache
      → (t : Travelpayouts) (req : SearchRequest) (n d : ℕ) (s s1 s2 s3 : cache.Store)
        (v : Result Bytes (Option Bytes)) (u : Option Bytes) (fares : List Fare) (bytes : Bytes)
      → t.has_cache ≡ true
      → t.cache_ttl ≡ n * 1000000000
      → 0 < n
      → IsSpan n
      → d < n
      → cache.read (key_of calls req) s ≡ (v, s1)
      → search calls (some (λ key. hit_of v)) req ≡ (ok fares, (key_of calls req, bytes) ∷ [])
      → cache.write (key_of calls req) bytes (n * 1000000000) s1 ≡ (ok tt, s2)
      → cache.read (key_of calls req) (cache.sleep d s2) ≡ (ok u, s3)
      → unmarshal_fares bytes ≡ ok fares
      → (search_stored t req s ≡ (ok fares, s2))
        × ((search_stored t req (cache.sleep d s2)).0
            ≡ ok (map (λ (f : Fare). record f { cached = true }) fares))
  search_stored_again good t req n d s s1 s2 s3 v u fares bytes b e pos long early r h w k j =
      let (later, is) = search_writes calls req (some (λ key. hit_of v)) h in
      let found : u ≡ some bytes =
        good.read_write (key_of calls req) bytes n d s1 s2 s3 u pos long early w k in
      (
        with_cache t req s s1 v is.valid b r
            ∙ ap (written_after t.cache_ttl s1) h
            ∙ ap (λ ttl. (ok fares, (cache.write (key_of calls req) bytes ttl s1).1)) e
            ∙ ap (λ x. (ok fares, x.1)) w,
        ap (λ x. x.0) (with_cache t req (cache.sleep d s2) s3 (ok u) is.valid b k)
            ∙ ap (λ x. (written_after t.cache_ttl s3 x).0)
                (search_again calls req (some (λ key. hit_of v)) (λ key. u) h found j),
      )
