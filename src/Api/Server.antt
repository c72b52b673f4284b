-- ===== src/Api/Server.antt =====
-- internal/api/server.go: the routes of the server and the functions around them. The ServeMux of
-- net/http is a parameter: which of the registered patterns a request belongs to, with the wildcards
-- of its path, or how a request of none of them is refused.
use flight_circle_search.Base.{
  ℕ, Bool, true, false, Option, none, some, List, [], ◌∷◌, map, Bytes, codes, bytes_eq, lookup,
  Result,
}
use flight_circle_search.Floats.{Floats}
use flight_circle_search.Config.{Config}
use flight_circle_search.Jobs.{SearchRequest}
use flight_circle_search.Jobs.Service.{AirportSource, new_service}
use flight_circle_search.Auth.Redis.{Redis}
use flight_circle_search.Http.{Request, Response, Writer, Site, Handler, raw, write}
use flight_circle_search.Http.Middleware.{
  Logged, access_log, require_auth, request_id, security_headers, cors,
}
use flight_circle_search.Http.Handlers
use flight_circle_search.Http.Handlers.{
  AuthHandlers, new_auth_handlers, request_magic_link, callback, logout, session, issue_test_token,
}
use flight_circle_search.Api
use flight_circle_search.Api.{Answer, submit_handler, get_handler, health_handler, ready_handler}

pub record ServeMux : Type 0 where
  pub select : List Bytes → Request → Option (Bytes × (Bytes → Bytes))
  pub refuse : List Bytes → Request → Writer → ℕ × Writer × Bytes

-- What the handling of one request draws from outside: random bytes, the clock, UUIDs and the answers to the pings.
pub record Draws : Type 0 where
  pub random : Result Bytes Bytes
  pub now : ℕ
  pub job_id : ℕ
  pub request_id : Bytes
  pub pool_ping : Result Bytes (Unit {0})
  pub redis_ping : Result Bytes (Unit {0})

module _ {W J : Type 0} (mux : ServeMux) where
  abbrev pub refused : List Bytes → Handler W J
  refused patterns r w s =
      let (status, w', text) = mux.refuse patterns r w in (write status (raw text) w', s)

  abbrev pub run :
      List (Bytes × Handler W J)
      → (Bytes → Bytes)
      → Request
      → Writer
      → W
      → Option (Handler W J)
      → Response J × W
  run routes path_value r w s none = refused (map (λ x. x.0) routes) r w s
  run routes path_value r w s (some next) = next (record r { path_value = path_value }) w s

  abbrev pub dispatch :
      List (Bytes × Handler W J)
      → Request
      → Writer
      → W
      → Option (Bytes × (Bytes → Bytes))
      → Response J × W
  dispatch routes r w s none = refused (map (λ x. x.0) routes) r w s
  dispatch routes r w s (some (pattern, path_value)) =
      run routes path_value r w s (lookup pattern routes)

  -- The handlers that are registered in a mux, as one.
  unfoldable pub serve : List (Bytes × Handler W J) → Handler W J
  serve routes r w s = dispatch routes r w s (mux.select (map (λ x. x.0) routes) r)

module _ (fl : Floats) (redis : Redis) (api : Api.Calls fl.Float) (auth : Handlers.Calls)
    (source : AirportSource fl.Float) (cfg : Config) (draws : Draws) where
  open fl use {Float}

  abbrev pub Serves : Type 0
  Serves = Handler (Site redis.State (SearchRequest Float)) (Answer Float)

  abbrev pub auth_handlers : AuthHandlers
  auth_handlers =
      new_auth_handlers auth.to_lower cfg.rate_limit_per_day cfg.app_origin cfg.allowed_emails

  abbrev pub test_token : Bool → List (Bytes × Serves)
  test_token false = []
  test_token true =
      (codes "POST /v1/auth/test-token", issue_test_token redis auth auth_handlers draws.random)
      ∷ []

  unfoldable pub routes : List (Bytes × Serves)
  routes =
      (
        codes "POST /jobs",
        require_auth redis auth.session_json
            (submit_handler fl api new_service source draws.job_id),
      )
      ∷ (codes "GET /jobs/{id}", require_auth redis auth.session_json (get_handler fl api))
      ∷ (codes "GET /health", health_handler)
      ∷ (codes "GET /readyz", ready_handler draws.pool_ping draws.redis_ping)
      ∷ (codes "POST /v1/auth/magic-link", request_magic_link redis auth auth_handlers draws.random)
      ∷ (codes "GET /v1/auth/callback", callback redis auth auth_handlers draws.random draws.now)
      ∷ (codes "POST /v1/auth/logout", logout redis auth auth_handlers)
      ∷ (
        codes "GET /v1/auth/session",
        require_auth redis auth.session_json (session redis auth auth_handlers),
      )
      ∷ test_token cfg.e2e_test_mode

  -- The handler of `NewServer`.
  unfoldable pub handler :
      ServeMux → Handler (Logged (Site redis.State (SearchRequest Float))) (Answer Float)
  handler mux =
      request_id draws.request_id
        (access_log (security_headers cfg.app_origin (cors cfg.app_origin (serve mux routes))))
