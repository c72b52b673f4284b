-- ===== src/Http/Middleware.antt =====
-- internal/http/middleware.go: the functions that wrap a handler. A line of the access log is what it
-- says, but for the duration.
use flight_circle_search.Base.{
  ℕ, List, [], ◌∷◌, ◌++◌, Option, none, some, Bytes, codes, bytes_eq, ◌==◌, has_prefix,
  if◌then◌else◌, Result, ok, err,
}
use flight_circle_search.Auth.{AuthError, not_found, rate_limited, failure}
use flight_circle_search.Auth.Redis.{Redis}
use flight_circle_search.Auth.Sessions.{Session, SessionJson, get_session}
use flight_circle_search.Http.{
  Site, Request, Response, Writer, Handler, nothing, set_header, write, write_error,
}

abbrev pub session_cookie_name : Bytes
session_cookie_name = codes "session"

-- `ErrUnauthorized`
abbrev pub unauthorized_text : Bytes
unauthorized_text = codes "unauthorized"

-- `err.Error()` of an error of package auth
abbrev pub auth_text : AuthError → Bytes
auth_text not_found = codes "not found"
auth_text rate_limited = codes "rate limited"
auth_text (failure text) = text

module _ {R J : Type 0} (redis : Redis) (json : SessionJson) where
  abbrev pub admitted :
      Handler (Site redis.State R) J
      → Request
      → Writer
      → Site redis.State R
      → Result AuthError Session
      → Response J × Site redis.State R
  admitted next r w state (ok session) = next (record r { session = some session }) w state
  admitted next r w state (err not_found) =
      (write_error 401 (codes "unauthorized") unauthorized_text w, state)
  admitted next r w state (err e) = (write_error 500 (codes "internal") (auth_text e) w, state)

  -- The part of the handler behind the cookie.
  abbrev pub with_cookie :
      Handler (Site redis.State R) J
      → Request
      → Writer
      → Site redis.State R
      → Option Bytes
      → Response J × Site redis.State R
  with_cookie next r w state none =
      (write_error 401 (codes "unauthorized") unauthorized_text w, state)
  with_cookie next r w state (some id) =
      let (found, after) = get_session redis json id state.redis in
      admitted next r w (record state { redis = after }) found

  unfoldable pub require_auth : Handler (Site redis.State R) J → Handler (Site redis.State R) J
  require_auth next r w state = with_cookie next r w state (r.cookie session_cookie_name)

abbrev pub secured : Bytes → Writer → Writer
secured app_origin w =
    let w1 = set_header (codes "X-Content-Type-Options") (codes "nosniff") w in
    let w2 = set_header (codes "X-Frame-Options") (codes "DENY") w1 in
    let w3 = set_header (codes "Referrer-Policy") (codes "strict-origin-when-cross-origin") w2 in
    if has_prefix app_origin (codes "https://")
    then set_header (codes "Strict-Transport-Security")
        (codes "max-age=63072000; includeSubDomains") w3
    else w3

abbrev pub allowing : Bytes → Writer → Writer
allowing app_origin w =
    let w1 = set_header (codes "Access-Control-Allow-Origin") app_origin w in
    let w2 = set_header (codes "Access-Control-Allow-Credentials") (codes "true") w1 in
    let w3 = set_header (codes "Access-Control-Allow-Methods") (codes "GET, POST, OPTIONS") w2 in
    let w4 = set_header (codes "Access-Control-Allow-Headers") (codes "Content-Type") w3 in
    set_header (codes "Vary") (codes "Origin") w4

module _ {W J : Type 0} where
  -- `id` is what `uuid.NewString()` returns.
  unfoldable pub request_id : Bytes → Handler W J → Handler W J
  request_id id next r w =
      next (record r { request_id = some id }) (set_header (codes "X-Request-ID") id w)

  unfoldable pub security_headers : Bytes → Handler W J → Handler W J
  security_headers app_origin next r w = next r (secured app_origin w)

  unfoldable pub cors : Bytes → Handler W J → Handler W J
  cors app_origin next r w state =
      let w1 = allowing app_origin w in
      if r.method == codes "OPTIONS" then (write 204 nothing w1, state) else next r w1 state

-- A line "http_request" of the access log.
pub record LogLine : Type 0 where
  pub method : Bytes
  pub path : Bytes
  pub status : ℕ
  pub request_id : Bytes

-- What a handler works on, with the lines that were logged.
pub record Logged (W : Type 0) : Type 0 where
  pub state : W
  pub log : List LogLine

-- `requestID, _ := RequestIDFromContext(ctx)`
abbrev pub request_id_of : Option Bytes → Bytes
request_id_of none = []
request_id_of (some id) = id

-- `rec.status` is the status that the handler has written.
abbrev pub log_line : {J : Type 0} → Request → Response J → LogLine
log_line r p = record {
  method = r.method;
  path = r.path;
  status = p.status;
  request_id = request_id_of r.request_id;
}

module _ {W J : Type 0} where
  abbrev pub logged : Request → List LogLine → Response J × W → Response J × Logged W
  logged r log (p, state) = (p, record { state = state; log = log ++ log_line r p ∷ [] })

  unfoldable pub access_log : Handler W J → Handler (Logged W) J
  access_log next r w s = logged r s.log (next r w s.state)
