-- ===== src/Cache.antt =====
-- internal/cache/memory.go and keys.go: the cache in memory, with its own clock, and the keys of the
-- fares. `ErrCacheMiss` is `none`; a duration is an int64 of nanoseconds. The read-write lock makes
-- each operation one step.
pub mod Reads
pub mod Keys
pub mod Remote
pub mod Contract
use flight_circle_search.Base.{
  ℕ, Option, none, some, List, [], ◌++◌, Bytes, codes, bytes_eq, lookup, insert, ltb, is_positive,
  time_add, if◌then◌else◌,
}

pub record CacheEntry : Type 0 where
  pub value : Bytes
  pub expires_at : ℕ

pub record InMemoryCache : Type 0 where
  pub items : List (Bytes × CacheEntry)
  pub now : ℕ

abbrev pub new_in_memory_cache : ℕ → InMemoryCache
new_in_memory_cache now = record { items = []; now = now }

unfoldable pub get : Bytes → InMemoryCache → Option Bytes
get key c = elim (lookup key c.items) [
  | none ↦ none
  | some entry ↦ if ltb c.now entry.expires_at then some entry.value else none
]

unfoldable pub set : Bytes → Bytes → ℕ → InMemoryCache → InMemoryCache
set key value ttl c =
    if is_positive ttl
    then record c {
      items = insert key (record { value = value; expires_at = time_add c.now ttl }) c.items;
    }
    else c

unfoldable pub advance : ℕ → InMemoryCache → InMemoryCache
advance d c = record c { now = time_add c.now d }

unfoldable pub fare_key : Bytes → Bytes → Bytes → Bytes
fare_key origin destination date =
    codes "fare:" ++ (origin ++ (codes ":" ++ (destination ++ (codes ":" ++ date))))
