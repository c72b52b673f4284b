-- ===== src/Cache/Remote.antt =====
-- internal/cache/redis.go: the cache in Redis, and internal/cache/cache.go: what both caches are to
-- the providers. `set_for` is what the client makes of a write for any duration: it rounds one that
-- is no whole number of milliseconds.
use flight_circle_search.Base.{ℕ, ◌*◌, Option, Bytes, Result, ok, is_positive, if◌then◌else◌}
use flight_circle_search.Auth.Redis.{Redis}
use flight_circle_search.Cache.{InMemoryCache, get, set}

-- The interface `Cache`; a miss is none. `sleep` lets seconds pass.
pub record CacheApi : Type 1 where
  pub Store : Type 0
  pub read : Bytes → Store → Result Bytes (Option Bytes) × Store
  pub write : Bytes → Bytes → ℕ → Store → Result Bytes (Unit {0}) × Store
  pub sleep : ℕ → Store → Store

module _ (redis : Redis)
    (set_for : Bytes → Bytes → ℕ → redis.State → Result Bytes (Unit {0}) × redis.State) where
  unfoldable pub remote_get : Bytes → redis.State → Result Bytes (Option Bytes) × redis.State
  remote_get key s = redis.get key s

  unfoldable pub remote_set :
      Bytes → Bytes → ℕ → redis.State → Result Bytes (Unit {0}) × redis.State
  remote_set key value ttl s = if is_positive ttl then set_for key value ttl s else (ok tt, s)

  abbrev pub redis_cache : CacheApi
  redis_cache = record {
    Store = redis.State;
    read = remote_get;
    write = remote_set;
    sleep = λ d s. redis.wait (d * 1000000000) s;
  }

-- Time does not pass for this cache: its clock is set when it is made, and only its tests move it.
abbrev pub memory_cache : CacheApi
memory_cache = record {
  Store = InMemoryCache;
  read = λ key c. (ok (get key c), c);
  write = λ key value ttl c. (ok tt, set key value ttl c);
  sleep = λ d c. c;
}
