-- ===== src/Api/Entry.antt =====
-- What every request to the server meets.
use flight_circle_search.Http.Headers.{
  outer, outer_id, outer_frame, outer_origin, outer_sniff, outer_referrer, outer_transport,
  outer_credentials, outer_methods, outer_headers, outer_vary,
}
use flight_circle_search.Http.Middleware.{
  access_log, logged, Logged, LogLine, log_line, request_id, security_headers, cors,
}
use flight_circle_search.Http.Guard.{Shows}
use flight_circle_search.Auth.Sessions.{Session}
use flight_circle_search.Http.Silent.{
  issue_test_token-IsOpen, request_magic_link-IsOpen, callback-IsOpen, logout-IsOpen,
  session-IsOpen,
}
use flight_circle_search.Http.Open.{write-IsOpen, error-IsOpen, IsOpen, is_value, IsKept}
use flight_circle_search.Http.Handlers.{AuthHandlers}
use flight_circle_search.Api.Guarded.{
  IsPrivateHandler, open-IsPrivate, guarded-IsPrivate, submit_handler-IsKept, get_handler-IsKept,
  KeepsHeaders, IsPrivate, serve-IsPrivate,
}
use flight_circle_search.Api.{Answer, health_handler, ready_handler}
use flight_circle_search.Http.{nothing, Handler, Site, Request, Writer, Response, write}
use flight_circle_search.Jobs.{SearchRequest}
use flight_circle_search.Api.Server.{
  Draws, auth_handlers, test_token, routes, ServeMux, handler, serve,
}
use flight_circle_search.Config.{Config}
use flight_circle_search.Jobs.Service.{AirportSource, new_service}
use flight_circle_search.Auth.Redis.{Redis, IsRedis}
use flight_circle_search.Floats.{Floats}
use flight_circle_search.Base.{
  List, [], ◌∷◌, ◌++◌, bytes_beq, ◌≡◌, refl, sym, subst, ◌∙◌, ◌⊎◌, Bool, true, false, some, Bytes,
  bytes_eq, contains, codes, lookup, Result, ok, err, Bool-cases, inl, inr, nat_eq, ◌==◌, All,
  has_prefix,
}
use flight_circle_search.Api
use flight_circle_search.Http.Handlers

module _ (fl : Floats) (redis : Redis) (api : Api.Calls fl.Float) (auth : Handlers.Calls)
    (source : AirportSource fl.Float) (cfg : Config) (draws : Draws) where
  open fl use {Float}

  -- A handler as the server has it, over Redis and the job engine.
  abbrev IsSafe : Handler (Site redis.State (SearchRequest Float)) (Answer Float) → Type 0
  IsSafe = IsPrivateHandler redis auth.session_json

  abbrev handlers : AuthHandlers
  handlers = auth_handlers fl redis api auth source cfg draws

  health-IsSafe : IsSafe health_handler
  unfolding health_handler
  health-IsSafe =
      open-IsPrivate redis auth.session_json health_handler
        (λ r w s. write-IsOpen w s s 200 w _ refl refl refl)

  ready-IsOpen :
      (pool ping : Result Bytes (Unit {0})) (r : Request) (w : Writer)
      (s : Site redis.State (SearchRequest Float))
      → IsOpen w s (ready_handler {J = Answer Float} pool ping r w s)
  unfolding ready_handler
  ready-IsOpen (err e) ping r w s = error-IsOpen w s s 503 _ _ refl
  ready-IsOpen (ok u) (err e) r w s = error-IsOpen w s s 503 _ _ refl
  ready-IsOpen (ok u) (ok v) r w s = write-IsOpen w s s 200 w _ refl refl refl

  test_token-IsSafe :
      (b : Bool) → All (λ x. IsSafe x.1) (test_token fl redis api auth source cfg draws b)
  test_token-IsSafe false = tt
  test_token-IsSafe true = (
    open-IsPrivate redis auth.session_json _
        (issue_test_token-IsOpen (Answer Float) redis auth handlers draws.random),
    tt,
  )

  routes-IsSafe : IsRedis redis → All (λ x. IsSafe x.1) (routes fl redis api auth source cfg draws)
  unfolding routes
  routes-IsSafe good =
      let json = auth.session_json in
      (
        guarded-IsPrivate redis json good _
            (submit_handler-IsKept fl api new_service source draws.job_id),
        (
          guarded-IsPrivate redis json good _ (get_handler-IsKept fl api),
          (
            health-IsSafe,
            (
              open-IsPrivate redis json _ (ready-IsOpen draws.pool_ping draws.redis_ping),
              (
                open-IsPrivate redis json _
                    (request_magic_link-IsOpen (Answer Float) redis auth handlers draws.random),
                (
                  open-IsPrivate redis json _
                      (callback-IsOpen (Answer Float) redis auth handlers draws.random draws.now),
                  (
                    open-IsPrivate redis json _ (logout-IsOpen (Answer Float) redis auth handlers),
                    (
                      guarded-IsPrivate redis json good _
                          (λ r w s. (session-IsOpen (Answer Float) redis auth handlers r w s).kept),
                      test_token-IsSafe cfg.e2e_test_mode,
                    ),
                  ),
                ),
              ),
            ),
          ),
        ),
      )

  module _ (mux : ServeMux) where
    abbrev pub HasHeader : Bytes → Bytes → Response (Answer Float) → Type 0
    HasHeader name v p = lookup name p.headers ≡ some v

    abbrev outside : Writer → Writer
    outside = outer cfg.app_origin draws.request_id

    abbrev inside : Request → Request
    inside r = record r { request_id = some draws.request_id }

    -- The state of the server: the site and its access log.
    abbrev pub State : Type 0
    State = Logged (Site redis.State (SearchRequest Float))

    handler_runs :
        (r : Request) (w : Writer) (s : State)
        → (r.method == codes "OPTIONS") ≡ false
        → handler fl redis api auth source cfg draws mux r w s
          ≡ logged
              (inside r)
              s.log
              (serve mux (routes fl redis api auth source cfg draws) (inside r) (outside w) s.state)
    unfolding handler request_id access_log security_headers cors
    handler_runs r w s h = rw (handler, h) refl

    handler_stops :
        (r : Request) (w : Writer) (s : State)
        → (r.method == codes "OPTIONS") ≡ true
        → handler fl redis api auth source cfg draws mux r w s
          ≡ logged (inside r) s.log (write 204 nothing (outside w), s.state)
    unfolding handler request_id access_log security_headers cors
    handler_stops r w s h = rw (handler, h) refl

    -- What an answer that kept the headers of the writer has.
    abbrev pub HasHeaders : Response (Answer Float) → Type 0
    HasHeaders p =
        HasHeader (codes "X-Request-ID") draws.request_id p
        × HasHeader (codes "X-Frame-Options") (codes "DENY") p
        × HasHeader (codes "X-Content-Type-Options") (codes "nosniff") p
        × HasHeader (codes "Referrer-Policy") (codes "strict-origin-when-cross-origin") p
        × (has_prefix cfg.app_origin (codes "https://") ≡ true
            → HasHeader (codes "Strict-Transport-Security")
                (codes "max-age=63072000; includeSubDomains") p)
        × HasHeader (codes "Access-Control-Allow-Origin") cfg.app_origin p
        × HasHeader (codes "Access-Control-Allow-Credentials") (codes "true") p
        × HasHeader (codes "Access-Control-Allow-Methods") (codes "GET, POST, OPTIONS") p
        × HasHeader (codes "Access-Control-Allow-Headers") (codes "Content-Type") p
        × HasHeader (codes "Vary") (codes "Origin") p

    kept-HasHeaders :
        (w : Writer) (p : Response (Answer Float)) → IsKept (outside w) p → HasHeaders p
    unfolding contains bytes_beq
    kept-HasHeaders w p k =
        let sniff = outer_sniff cfg.app_origin draws.request_id w in
        (
          k (codes "X-Request-ID") refl sniff ∙ outer_id cfg.app_origin draws.request_id w,
          k (codes "X-Frame-Options") refl sniff ∙ outer_frame cfg.app_origin draws.request_id w,
          k (codes "X-Content-Type-Options") refl sniff
              ∙ outer_sniff cfg.app_origin draws.request_id w,
          k (codes "Referrer-Policy") refl sniff ∙ outer_referrer cfg.app_origin draws.request_id w,
          (λ h.
              k (codes "Strict-Transport-Security") refl sniff
              ∙ outer_transport cfg.app_origin draws.request_id w h),
          k (codes "Access-Control-Allow-Origin") refl sniff
              ∙ outer_origin cfg.app_origin draws.request_id w,
          k (codes "Access-Control-Allow-Credentials") refl sniff
              ∙ outer_credentials cfg.app_origin draws.request_id w,
          k (codes "Access-Control-Allow-Methods") refl sniff
              ∙ outer_methods cfg.app_origin draws.request_id w,
          k (codes "Access-Control-Allow-Headers") refl sniff
              ∙ outer_headers cfg.app_origin draws.request_id w,
          k (codes "Vary") refl sniff ∙ outer_vary cfg.app_origin draws.request_id w,
        )

    -- The line of the access log names the request, the status of its answer and the id that the answer carries.
    abbrev pub IsLogged : Request → List LogLine → Response (Answer Float) → List LogLine → Type 0
    IsLogged r before p after =
        (line : LogLine) × (after ≡ before ++ line ∷ [])
        × (line.method ≡ r.method)
        × (line.path ≡ r.path)
        × (line.status ≡ p.status)
        × HasHeader (codes "X-Request-ID") line.request_id p

    abbrev pub IsAnswered : Request → State → Response (Answer Float) × State → Type 0
    IsAnswered r s p =
        (((p.1.state.jobs ≡ s.state.jobs) × (is_value p.0.body ≡ false))
          ⊎ ((it : Session) × Shows redis auth.session_json r s.state.redis it))
        × HasHeaders p.0
        × IsLogged r s.log p.0 p.1.log

    logged-IsAnswered :
        (r : Request) (w : Writer) (s : State)
        (p : Response (Answer Float) × Site redis.State (SearchRequest Float))
        → IsPrivate redis auth.session_json (inside r) (outside w) s.state p
        → IsAnswered r s (logged (inside r) s.log p)
    logged-IsAnswered r w s (p, t) (inl o) =
        let heads = kept-HasHeaders w p o.kept in
        (
          inl (o.same_jobs, o.shows_none),
          heads,
          (log_line (inside r) p, refl, refl, refl, refl, heads.0),
        )
    logged-IsAnswered r w s (p, t) (inr (seen, k)) =
        let heads = kept-HasHeaders w p k in
        (inr seen, heads, (log_line (inside r) p, refl, refl, refl, refl, heads.0))

    -- A request that shows no session reaches no job: whatever the server answers, then, the job engine is as it was and the answer has neither a job nor a submission. Every answer has each of the headers that the functions around the routes set: the id, the three that are always set for security, the one on transport if the origin of the app is secure, and the five for other origins. And for every request the access log gets one line, with its method and path, the status of the answer and the id in the answer's X-Request-ID.
    pub handler-IsAnswered :
        IsRedis redis
        → KeepsHeaders mux
        → (r : Request) (w : Writer) (s : State)
        → IsAnswered r s (handler fl redis api auth source cfg draws mux r w s)
    handler-IsAnswered good keeps r w s = elim (Bool-cases (r.method == codes "OPTIONS")) [
      | inl h ↦ subst (IsAnswered r s) (sym (handler_stops r w s h)) (
          logged-IsAnswered r w s (write 204 nothing (outside w), s.state)
            (inl (write-IsOpen (outside w) s.state s.state 204 (outside w) nothing refl refl refl)))
      | inr h ↦ subst (IsAnswered r s) (sym (handler_runs r w s h)) (
          logged-IsAnswered r w s _ (
            (serve-IsPrivate redis auth.session_json mux keeps _ (routes-IsSafe good)).at (inside r)
              (outside w) s.state))
    ]
