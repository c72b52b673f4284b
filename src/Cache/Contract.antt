-- ===== src/Cache/Contract.antt =====
-- What both caches promise.
use flight_circle_search.Cache.Reads.{get_set_now}
use flight_circle_search.Cache.Remote.{CacheApi, memory_cache, redis_cache, remote_get, remote_set}
use flight_circle_search.Base.{
  ℕ, ◌*◌, ◌<◌, ◌≡◌, refl, sym, ◌∙◌, ap, true, false, Option, none, some, Bytes, bytes_eq, Result,
  ok, ltb, is_positive, if◌then◌else◌, arith,
}
use flight_circle_search.Auth.Redis.{Redis, IsRedis}
use flight_circle_search.Cache.{InMemoryCache, get, set}

-- A whole number of seconds that an int64 of nanoseconds holds.
abbrev pub IsSpan : ℕ → Type 0
IsSpan n = n * 1000000000 < 9223372036854775808

-- After a write that succeeded, for a positive time of whole seconds, a read of the key that succeeds gives the value while less time has passed; a write for a time that is not positive does nothing.
pub record IsKeeping (cache : CacheApi) : Type 0 where
  pub read_write :
      (key value : Bytes) (n d : ℕ) (s s' s'' : cache.Store) (v : Option Bytes)
      → 0 < n
      → IsSpan n
      → d < n
      → cache.write key value (n * 1000000000) s ≡ (ok tt, s')
      → cache.read key (cache.sleep d s') ≡ (ok v, s'')
      → v ≡ some value
  pub write_nothing :
      (key value : Bytes) (ttl : ℕ) (s : cache.Store)
      → is_positive ttl ≡ false
      → cache.write key value ttl s ≡ (ok tt, s)

-- What a read that succeeds gives some time after a write that succeeded, for a positive time of whole seconds.
abbrev pub ReadsLater : (cache : CacheApi) → (ℕ → ℕ → Bytes → Option Bytes) → Type 0
ReadsLater cache left =
    (key value : Bytes) (n d : ℕ) (s s' s'' : cache.Store) (v : Option Bytes)
    → 0 < n
    → IsSpan n
    → cache.write key value (n * 1000000000) s ≡ (ok tt, s')
    → cache.read key (cache.sleep d s') ≡ (ok v, s'')
    → v ≡ left d n value

-- The value is a miss once its time is over.
abbrev pub expiring : ℕ → ℕ → Bytes → Option Bytes
expiring d n value = if ltb d n then some value else none

-- The value stays, however much time passes.
abbrev pub lasting : ℕ → ℕ → Bytes → Option Bytes
lasting d n value = some value

-- The client does not round a whole number of seconds.
abbrev pub SendsSeconds :
    (redis : Redis)
    → (Bytes → Bytes → ℕ → redis.State → Result Bytes (Unit {0}) × redis.State)
    → Type 0
SendsSeconds redis set_for =
    (key value : Bytes) (n : ℕ) (s : redis.State)
    → set_for key value (n * 1000000000) s ≡ redis.set key value (n * 1000000000) s

positive_span : (n : ℕ) → 0 < n → IsSpan n → is_positive (n * 1000000000) ≡ true
positive_span n h k = ground arith

span_ltb : (d n : ℕ) → ltb (d * 1000000000) (n * 1000000000) ≡ ltb d n
span_ltb d n = ground arith

early_ltb : (d n : ℕ) → d < n → ltb d n ≡ true
early_ltb d n h = ground arith

memory_read :
    (key value : Bytes) (n : ℕ) (s : InMemoryCache)
    → 0 < n
    → IsSpan n
    → get key (set key value (n * 1000000000) s) ≡ some value
memory_read key value n s pos long =
    get_set_now key value (n * 1000000000) s (positive_span n pos long)

ok_some : {u v : Option Bytes} → ◌≡◌ {A = Result Bytes (Option Bytes)} (ok u) (ok v) → u ≡ v
ok_some h = cc

memory_lasts : ReadsLater memory_cache lasting
memory_lasts key value n d s s' s'' v pos long w r =
    sym (ok_some (ap (λ x. x.0) r))
    ∙ ap (get key) (sym (ap (λ x. x.1) w))
    ∙ memory_read key value n s pos long

pub memory-IsKeeping : IsKeeping memory_cache
unfolding set
memory-IsKeeping = record {
  read_write = λ key value n d s s' s'' v pos long early w r.
      memory_lasts key value n d s s' s'' v pos long w r;
  write_nothing = λ key value ttl s h. rw h refl;
}

module _ (redis : Redis)
    (set_for : Bytes → Bytes → ℕ → redis.State → Result Bytes (Unit {0}) × redis.State) where
  remote_expires :
      IsRedis redis → SendsSeconds redis set_for → ReadsLater (redis_cache redis set_for) expiring
  unfolding remote_get remote_set
  remote_expires good sends key value n d s s' s'' v pos long w r =
      (good.get_value key (redis.wait (d * 1000000000) s') s'' v r).0
      ∙ good.set_value key value (n * 1000000000) (d * 1000000000) s s'
          (sym (sends key value n s) ∙ (rw (positive_span n pos long) at w))
      ∙ rw (span_ltb d n) refl

  remote-IsKeeping :
      IsRedis redis → SendsSeconds redis set_for → IsKeeping (redis_cache redis set_for)
  unfolding remote_set
  remote-IsKeeping good sends = record {
    read_write = λ key value n d s s' s'' v pos long early w r.
        remote_expires good sends key value n d s s' s'' v pos long w r
        ∙ ap (λ x. if x then some value else none) (early_ltb d n early);
    write_nothing = λ key value ttl s h. rw h refl;
  }

  -- If Redis keeps its promises and the client sends whole seconds as they are, both caches keep a value for the whole seconds that it was written for, and drop a write whose time is not positive. After that time the value is a miss in Redis; in memory it stays, however much time passes, as the clock of that cache stands still.
  pub caches-IsKeeping :
      IsRedis redis
      → SendsSeconds redis set_for
      → IsKeeping memory_cache
        × ReadsLater memory_cache lasting
        × IsKeeping (redis_cache redis set_for)
        × ReadsLater (redis_cache redis set_for) expiring
  caches-IsKeeping good sends =
      (memory-IsKeeping, memory_lasts, remote-IsKeeping good sends, remote_expires good sends)
