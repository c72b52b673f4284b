-- ===== src/Startup/Runner.antt =====
-- internal/worker/runner.go: NewRunner, Run and Close, and the main of cmd/worker.
use flight_circle_search.Base.{ℕ, ◌*◌, ◌%◌, true, false, ◌++◌, Bytes, codes, Result, ok, err, []}
use flight_circle_search.Config.{Config, load, validate}
use flight_circle_search.Fares.Stored.{Travelpayouts, new_travelpayouts, set_cache}
use flight_circle_search.Worker.Limiter.{Semaphore, RateLimiter, new_rate_limiter}
use flight_circle_search.Startup.{Process, Answers, attempt, Exit, checked, started, idle}

-- `NewRedisCache` (internal/cache/redis.go): a client with the address alone; one that does not answer is not closed.
unfoldable pub new_redis_cache : Answers → Bytes → Process → Result Bytes (Unit {0}) × Process
new_redis_cache answers addr p =
    let opened = record p { redis = true } in
    attempt (answers.ping (record { addr = addr; rest = [] })) (codes "redis ping: ") opened
      (λ _. (ok tt, opened))

-- `time.Duration(hours) * time.Hour`
abbrev pub hours_to_duration : ℕ → ℕ
hours_to_duration hours = (hours * 3600000000000) % 18446744073709551616

module _ (sem : Semaphore) where
  -- `Runner`, with the parts that its fare worker is made of.
  pub record Runner : Type 0 where
    pub addr : Bytes
    pub provider : Travelpayouts
    pub limiter : RateLimiter sem.State

  -- The provider, the limiter and the queue's client, behind the two connections.
  abbrev pub assembled : Answers → Config → Process → Result Bytes Runner × Process
  assembled answers cfg p =
      attempt answers.new_river_client (codes "create river client: ")
        (record p { redis = false; pool = false })
        (λ _. (
          ok (record {
            addr = cfg.api_addr;
            provider = set_cache (hours_to_duration cfg.cache_ttl_hours) new_travelpayouts;
            limiter = new_rate_limiter sem 4;
          }),
          p,
        ))

  abbrev pub cached :
      Answers → Config → Result Bytes (Unit {0}) × Process → Result Bytes Runner × Process
  cached answers cfg (r, p) =
      attempt r (codes "connect redis: ") (record p { pool = false }) (λ _. assembled answers cfg p)

  unfoldable pub new_runner : Answers → Config → Process → Result Bytes Runner × Process
  unfolding new_redis_cache
  new_runner answers cfg p0 =
      attempt (answers.new_pool cfg.database_url) (codes "connect postgres: ") p0 (λ _.
        let p1 = record p0 { pool = true } in
        let closed = record p1 { pool = false } in
        attempt answers.run_river_migrations (codes "migrate: ") closed (λ _.
          attempt (answers.parse_url cfg.redis_url) (codes "parse redis url: ") closed
            (λ options. cached answers cfg (new_redis_cache answers options.addr p1))))

-- `Run`: what the start of the queue's client answers, and its stop after a signal.
unfoldable pub run : Result Bytes (Unit {0}) → Result Bytes (Unit {0}) → Result Bytes (Unit {0})
run (err e) stopped = err (codes "start river client: " ++ e)
run (ok _) (err e) = err (codes "stop river client: " ++ e)
run (ok _) (ok _) = ok tt

-- `main` of cmd/worker
unfoldable pub worker_main :
    (sem : Semaphore)
    → (to_lower getenv : Bytes → Bytes) → Answers
    → Result Bytes (Unit {0})
    → Result Bytes (Unit {0})
    → Exit × Process
worker_main sem to_lower getenv answers start stop =
    let cfg = load to_lower getenv in
    checked (validate cfg) idle (
      started (codes "build worker: ") (codes "run: ") (λ _. run start stop)
        (new_runner sem answers cfg idle))
