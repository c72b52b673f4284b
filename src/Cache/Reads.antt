-- ===== src/Cache/Reads.antt =====
-- What a read of the cache sees of an earlier write.
use flight_circle_search.Base.{
  ℕ, ◌≡◌, true, none, some, ◌&&◌, Bytes, bytes_eq, ◌==◌, lookup-insert, ltb, is_positive,
  if◌then◌else◌, arith, Bool-cases, inl, inr, time_add, bytes_beq_iff,
}
use flight_circle_search.Cache.{InMemoryCache, get, set, advance}

-- After a write and a passage of time that is not negative, the key that was written reads as the value exactly while less time has passed than its positive time to live, and is a miss from then on; every other key, and every key after a write whose time to live is not positive, reads as it would without the write.
pub get-set :
    (key k value : Bytes) (ttl d : ℕ) (c : InMemoryCache)
    → ltb d 9223372036854775808 ≡ true
    → get k (advance d (set key value ttl c)) ≡ (
        if is_positive ttl && k == key
        then (if ltb d ttl then some value else none)
        else get k (advance d c))
unfolding get set advance
get-set key k value ttl d c h = elim (Bool-cases (is_positive ttl)) [
  | inl p ↦ ground (
    arith,
    lookup-insert k key (record { value = value; expires_at = time_add c.now ttl }) c.items,
  )
  | inr p ↦ ground arith
]

-- A read right after the write.
pub get_set_now :
    (key value : Bytes) (ttl : ℕ) (c : InMemoryCache)
    → is_positive ttl ≡ true
    → get key (set key value ttl c) ≡ some value
unfolding get set
get_set_now key value ttl c p = ground (
  arith,
  bytes_beq_iff key key,
  lookup-insert key key (record { value = value; expires_at = time_add c.now ttl }) c.items,
)
