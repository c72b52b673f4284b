-- ===== src/Auth/Redis.antt =====
-- The Redis client (github.com/redis/go-redis): a parameter. Only what the stores rely on is assumed,
-- in `IsRedis` and `KeepsGone`: a value that was set is there until its time is over, a deleted one is
-- gone, and one that is gone comes back only by a write.
use flight_circle_search.Base.{
  ℕ, ◌≡◌, ◌≢◌, Option, none, some, Bytes, Result, ok, ltb, if◌then◌else◌,
}

-- The server's state, the value of a key in it, the state after some time, and the commands, each of which may fail.
pub record Redis : Type 1 where
  pub State : Type 0
  pub value : Bytes → State → Option Bytes
  pub wait : ℕ → State → State
  pub incr : Bytes → State → Result Bytes ℕ × State
  pub expire : Bytes → ℕ → State → Result Bytes (Unit {0}) × State
  pub set : Bytes → Bytes → ℕ → State → Result Bytes (Unit {0}) × State
  pub get : Bytes → State → Result Bytes (Option Bytes) × State
  pub del : Bytes → State → Result Bytes (Unit {0}) × State

-- What Redis documents of the commands that succeed.
pub record IsRedis (redis : Redis) : Type 0 where
  pub get_value :
      (key : Bytes) (s s' : redis.State) (v : Option Bytes)
      → redis.get key s ≡ (ok v, s')
      → (v ≡ redis.value key s) × (s' ≡ s)
  pub set_value :
      (key bytes : Bytes) (ttl d : ℕ) (s s' : redis.State)
      → redis.set key bytes ttl s ≡ (ok tt, s')
      → redis.value key (redis.wait d s') ≡ (if ltb d ttl then some bytes else none)
  pub del_value :
      (key : Bytes) (d : ℕ) (s s' : redis.State)
      → redis.del key s ≡ (ok tt, s')
      → redis.value key (redis.wait d s') ≡ none

-- No command but a write of the key brings a key back that has no value, whether the command succeeds or fails.
pub record KeepsGone (redis : Redis) : Type 0 where
  pub del_gone :
      (key : Bytes) (s s' : redis.State) → redis.del key s ≡ (ok tt, s') → redis.value key s' ≡ none
  pub wait_gone :
      (key : Bytes) (d : ℕ) (s : redis.State)
      → redis.value key s ≡ none
      → redis.value key (redis.wait d s) ≡ none
  pub incr_gone :
      (key k : Bytes) (s : redis.State)
      → k ≢ key
      → redis.value key s ≡ none
      → redis.value key (redis.incr k s).1 ≡ none
  pub expire_gone :
      (key k : Bytes) (ttl : ℕ) (s : redis.State)
      → redis.value key s ≡ none
      → redis.value key (redis.expire k ttl s).1 ≡ none
  pub set_gone :
      (key k bytes : Bytes) (ttl : ℕ) (s : redis.State)
      → k ≢ key
      → redis.value key s ≡ none
      → redis.value key (redis.set k bytes ttl s).1 ≡ none
  pub get_gone :
      (key k : Bytes) (s : redis.State)
      → redis.value key s ≡ none
      → redis.value key (redis.get k s).1 ≡ none
  pub del_others :
      (key k : Bytes) (s : redis.State)
      → redis.value key s ≡ none
      → redis.value key (redis.del k s).1 ≡ none
