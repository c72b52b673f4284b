-- ===== src/Startup/Release.antt =====
-- Which connections a process still holds when its start has failed, and what it connects to.
use flight_circle_search.Base.{
  ◌≡◌, refl, Bool, true, false, ◌&&◌, ◌||◌, [], Bytes, Result, ok, err, Result-cases, inl, inr, not,
}
use flight_circle_search.Config.{Config}
use flight_circle_search.Worker.Limiter.{Semaphore}
use flight_circle_search.Startup.Runner.{new_redis_cache, new_runner}
use flight_circle_search.Startup.{Process, Answers, new_server, idle, RedisOptions}

abbrev pub is_ok {ℓ κ} : {E : Type κ} {A : Type ℓ} → Result E A → Bool
is_ok (ok a) = true
is_ok (err e) = false

-- The two connections of a process: the pool is held exactly by a start that succeeded, and Redis by one that `held` says.
abbrev pub IsHeld : {S : Type 0} → Bool → Result Bytes S × Process → Type 0
IsHeld held (r, p) = (p.pool ≡ is_ok r) × (p.redis ≡ held)

-- The start came as far as to a client of Redis.
abbrev pub reaches_redis : Answers → Config → Bool
reaches_redis answers cfg =
    is_ok (answers.new_pool cfg.database_url)
    && is_ok answers.run_river_migrations
    && is_ok (answers.parse_url cfg.redis_url)

module _ (answers : Answers) (cfg : Config) where
  new_server-IsHeld : IsHeld (reaches_redis answers cfg) (new_server answers cfg idle)
  unfolding new_server
  new_server-IsHeld = elim (Result-cases (answers.new_pool cfg.database_url)) [
    | inr (e, q) ↦ rw (new_server, q) (refl, refl)
    | inl (u, q) ↦ elim (Result-cases answers.run_river_migrations) [
      | inr (e, k) ↦ rw (new_server, q, k) (refl, refl)
      | inl (v, k) ↦ elim (Result-cases (answers.parse_url cfg.redis_url)) [
        | inr (e, h) ↦ rw (new_server, q, k, h) (refl, refl)
        | inl (o, h) ↦ elim (Result-cases (answers.ping o)) [
          | inr (e, i) ↦ rw (new_server, q, k, h, i) (refl, refl)
          | inl (x, i) ↦ elim (Result-cases answers.new_river_client) [
            | inr (e, j) ↦ rw (new_server, q, k, h, i, j) (refl, refl)
            | inl (y, j) ↦ rw (new_server, q, k, h, i, j) (refl, refl)
          ]
        ]
      ]
    ]
  ]

-- The worker's connection to Redis is closed when the queue's client fails, but not when the ping does.
abbrev pub worker_holds : Answers → Result Bytes RedisOptions → Bool
worker_holds answers (err e) = false
worker_holds answers (ok o) =
    not (is_ok (answers.ping (record { addr = o.addr; rest = [] })))
    || is_ok answers.new_river_client

abbrev pub runner_holds : Answers → Config → Bool
runner_holds answers cfg =
    is_ok (answers.new_pool cfg.database_url)
    && is_ok answers.run_river_migrations
    && worker_holds answers (answers.parse_url cfg.redis_url)

module _ (sem : Semaphore) (answers : Answers) where
  new_runner-IsHeld :
      (cfg : Config) → IsHeld (runner_holds answers cfg) (new_runner sem answers cfg idle)
  unfolding new_runner new_redis_cache
  new_runner-IsHeld cfg = elim (Result-cases (answers.new_pool cfg.database_url)) [
    | inr (e, q) ↦ rw (new_runner, q) (refl, refl)
    | inl (u, q) ↦ elim (Result-cases answers.run_river_migrations) [
      | inr (e, k) ↦ rw (new_runner, q, k) (refl, refl)
      | inl (v, k) ↦ elim (Result-cases (answers.parse_url cfg.redis_url)) [
        | inr (e, h) ↦ rw (new_runner, q, k, h) (refl, refl)
        | inl (o, h) ↦ elim (Result-cases (answers.ping (record { addr = o.addr; rest = [] }))) [
          | inr (e, i) ↦ rw (new_runner, q, k, h, i) (refl, refl)
          | inl (x, i) ↦ elim (Result-cases answers.new_river_client) [
            | inr (e, j) ↦ rw (new_runner, q, k, h, i, j) (refl, refl)
            | inl (y, j) ↦ rw (new_runner, q, k, h, i, j) (refl, refl)
          ]
        ]
      ]
    ]
  ]

  -- Whatever the calls of a start answer, the server and the worker hold the pool of database connections exactly if they have started. A connection to Redis, though, outlives some starts that failed: the server holds one exactly if it came as far as to Redis, and the worker exactly if it came as far and its ping failed or the client of the queue was made.
  pub start-IsHeld :
      (cfg : Config)
      → IsHeld (reaches_redis answers cfg) (new_server answers cfg idle)
        × IsHeld (runner_holds answers cfg) (new_runner sem answers cfg idle)
  start-IsHeld cfg = (new_server-IsHeld answers cfg, new_runner-IsHeld cfg)

  -- The worker starts in the same way for any two Redis URLs with the same address, whatever else they say: a user, a password, TLS or a database.
  pub new_runner_ignores :
      (cfg : Config) (url url' : Bytes) (o o' : RedisOptions) (p : Process)
      → answers.parse_url url ≡ ok o
      → answers.parse_url url' ≡ ok o'
      → o.addr ≡ o'.addr
      → new_runner sem answers (record cfg { redis_url = url }) p
        ≡ new_runner sem answers (record cfg { redis_url = url' }) p
  unfolding new_runner
  new_runner_ignores cfg url url' o o' p h k e = rw (new_runner, h, k, e) refl
