-- ===== src/Startup.antt =====
-- How the two processes start and end: NewServer, Listen and Close of internal/api/server.go, and the
-- mains of cmd/api and cmd/worker. What the libraries answer to each call is a parameter. Of a process
-- the model has the connections that it holds open.
pub mod Runner
pub mod Release
pub mod Pool
use flight_circle_search.Base.{
  ℕ, Bool, true, false, Option, none, some, List, ◌++◌, Bytes, codes, Result, ok, err,
}
use flight_circle_search.Config.{Config, load, validate}

pub record Process : Type 0 where
  pub pool : Bool
  pub redis : Bool

-- `redis.Options`: the address, and all else that a URL says (user, password, TLS, database).
pub record RedisOptions : Type 0 where
  pub addr : Bytes
  pub rest : Bytes

-- What the calls of a start answer: for a database URL, for the migrations, for a Redis URL, for a ping with given options, and for the queue's client.
pub record Answers : Type 0 where
  pub new_pool : Bytes → Result Bytes (Unit {0})
  pub run_river_migrations : Result Bytes (Unit {0})
  pub parse_url : Bytes → Result Bytes RedisOptions
  pub ping : RedisOptions → Result Bytes (Unit {0})
  pub new_river_client : Result Bytes (Unit {0})

-- `if err != nil { …; return nil, fmt.Errorf("…: %w", err) }`, with the process as it is then.
abbrev pub attempt :
    {A B : Type 0}
    → Result Bytes A
    → Bytes
    → Process
    → (A → Result Bytes B × Process)
    → Result Bytes B × Process
attempt (ok a) context p next = next a
attempt (err e) context p next = (err (context ++ e), p)

-- `Server`, without its handler (Api.Server.handler)
pub record Server : Type 0 where
  pub addr : Bytes

unfoldable pub new_server : Answers → Config → Process → Result Bytes Server × Process
new_server answers cfg p0 =
    attempt (answers.new_pool cfg.database_url) (codes "connect postgres: ") p0 (λ _.
      let p1 = record p0 { pool = true } in
      let closed = record p1 { pool = false } in
      attempt answers.run_river_migrations (codes "migrate: ") closed (λ _.
        attempt (answers.parse_url cfg.redis_url) (codes "parse redis url: ") closed (λ options.
          let p2 = record p1 { redis = true } in
          let half_closed = record p2 { pool = false } in
          attempt (answers.ping options) (codes "connect redis: ") half_closed (λ _.
            attempt answers.new_river_client (codes "create river client: ") half_closed
              (λ _. (ok (record { addr = cfg.api_addr }), p2))))))

-- `Close`
unfoldable pub close : Process → Process
close p = record { pool = false; redis = false }

-- How `ListenAndServe` ends; a shutdown ends it with `ErrServerClosed`.
pub data Serving : Type 0 where
  returned server_closed : Serving
  refused : Bytes → Serving

unfoldable pub listen : Serving → Result Bytes (Unit {0})
listen returned = ok tt
listen server_closed = ok tt
listen (refused text) = err (codes "listen: " ++ text)

-- The end of a process: `main` returned, or `log.Fatalf` stopped it with a message and without the deferred calls.
pub data Exit : Type 0 where
  done : Exit
  fatal : Bytes → Exit

abbrev pub closed_after : Bytes → Process → Result Bytes (Unit {0}) → Exit × Process
closed_after context p (ok _) = (done, close p)
closed_after context p (err e) = (fatal (context ++ e), p)

abbrev pub started :
    {S : Type 0}
    → Bytes
    → Bytes
    → (S → Result Bytes (Unit {0}))
    → Result Bytes S × Process
    → Exit × Process
started building running run (err e, p) = (fatal (building ++ e), p)
started building running run (ok s, p) = closed_after running p (run s)

abbrev pub checked : Option Bytes → Process → Exit × Process → Exit × Process
checked (some text) p next = (fatal (codes "invalid config: " ++ text), p)
checked none p next = next

abbrev pub idle : Process
idle = record { pool = false; redis = false }

-- `main` of cmd/api
unfoldable pub api_main :
    (to_lower getenv : Bytes → Bytes) → Answers → (Server → Serving) → Exit × Process
api_main to_lower getenv answers serving =
    let cfg = load to_lower getenv in
    checked (validate cfg) idle (
      started (codes "build server: ") (codes "listen: ") (λ s. listen (serving s))
        (new_server answers cfg idle))
