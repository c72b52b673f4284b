-- ===== src/Http/Handlers.antt =====
-- internal/http/auth_handlers.go: the endpoints of the login by magic link. The decoder of the body,
-- the parser of an address (net/mail), the lower case of a text, the escape of a URL and the sender
-- of mails are parameters; the error of the sender is dropped by the handler.
use flight_circle_search.Base.{
  false, ℕ, Bool, true, false, Option, none, some, List, [], ◌∷◌, ◌++◌, map, Bytes, codes, bytes_eq,
  contains, set_of, length, nat_eq, ◌==◌, has_prefix, if◌then◌else◌, Result, ok, err,
}
use flight_circle_search.Auth.{AuthError, not_found, rate_limited}
use flight_circle_search.Auth.Redis.{Redis}
use flight_circle_search.Auth.Tokens.{issue, consume}
use flight_circle_search.Auth.Sessions.{Session, SessionJson, create, delete_session}
use flight_circle_search.Http.{
  Request, Response, Writer, Site, lax, unrestricted, nothing, strings, write, write_json,
  write_error,
}
use flight_circle_search.Http.Middleware.{session_cookie_name, unauthorized_text, auth_text}

-- The code that the handlers call.
pub record Calls : Type 0 where
  pub decode_email : Bytes → Result Bytes Bytes
  pub parse_address : Bytes → Option Bytes
  pub to_lower : Bytes → Bytes
  pub query_escape : Bytes → Bytes
  pub hex_sum : Bytes → Bytes
  pub session_json : SessionJson

-- `rate_limit_per_day` is the field of the token store.
pub record AuthHandlers : Type 0 where
  pub rate_limit_per_day : ℕ
  pub app_origin : Bytes
  pub cookie_secure : Bool
  pub allowed_emails : List Bytes

unfoldable pub new_auth_handlers : (Bytes → Bytes) → ℕ → Bytes → List Bytes → AuthHandlers
new_auth_handlers to_lower per_day app_origin allowed = record {
  rate_limit_per_day = per_day;
  app_origin = app_origin;
  cookie_secure = has_prefix app_origin (codes "https://");
  allowed_emails = set_of (map to_lower allowed);
}

unfoldable pub is_allowed : (Bytes → Bytes) → AuthHandlers → Bytes → Bool
is_allowed to_lower h email =
    if length h.allowed_emails == 0 then true else contains (to_lower email) h.allowed_emails

unfoldable pub set_session_cookie : AuthHandlers → Bytes → ℕ → Writer → Writer
set_session_cookie h v max_age w = record w {
  cookies =
      w.cookies
      ++ record {
        name = session_cookie_name;
        value = v;
        path = codes "/";
        max_age = max_age;
        http_only = true;
        secure = h.cookie_secure;
        same_site = if h.cookie_secure then unrestricted else lax;
      }
        ∷ [];
}

-- `int(auth.SessionTTL.Seconds())`
abbrev pub session_max_age : ℕ
session_max_age = 2592000

-- -1
abbrev pub expired_max_age : ℕ
expired_max_age = 18446744073709551615

module _ {J : Type 0} where
  abbrev pub internal : AuthError → Writer → Response J
  internal e = write_error 500 (codes "internal") (auth_text e)

  -- The answer to a link that was sent, or that is not sent without a word.
  abbrev pub accepted : Writer → Response J
  accepted = write_json 202 (strings ((codes "status", codes "sent") ∷ []))

  abbrev pub session_of : Option Session → Writer → Response J
  session_of none = write_error 401 (codes "unauthorized") unauthorized_text
  session_of (some session) = write_json 200 (strings ((codes "email", session.email) ∷ []))

abbrev pub link_to : Calls → AuthHandlers → Bytes → Bytes
link_to calls h token = h.app_origin ++ (codes "/auth/callback?token=" ++ calls.query_escape token)

abbrev pub issued_for :
    (redis : Redis)
    → Calls
    → AuthHandlers
    → Bytes
    → Result Bytes Bytes
    → redis.State
    → Result AuthError Bytes × redis.State
issued_for redis calls h address random =
    issue redis calls.hex_sum h.rate_limit_per_day address random

module _ {R : Type 0} (redis : Redis) where
  -- The error of the deletion is dropped.
  abbrev pub forgotten : Option Bytes → Site redis.State R → Site redis.State R
  forgotten none s = s
  forgotten (some id) s = record s { redis = (delete_session redis id s.redis).1 }

module _ {R J : Type 0} (redis : Redis) (calls : Calls) (h : AuthHandlers) where
  open calls use {decode_email, parse_address, to_lower, hex_sum, session_json}

  abbrev pub sending :
      Bytes → Writer → Site redis.State R → Result AuthError Bytes → Response J × Site redis.State R
  sending address w s (ok token) =
      (accepted w, record s { sent = s.sent ++ (address, link_to calls h token) ∷ [] })
  sending address w s (err rate_limited) = (
    write_error 429 (codes "rate_limited") (codes "too many magic-link requests, try again later")
        w,
    s,
  )
  sending address w s (err e) = (internal e w, s)

  -- `if !h.isAllowed(…)`: the same answer as for a link that was sent.
  abbrev pub permitted :
      Bytes
      → Result Bytes Bytes
      → Writer
      → Site redis.State R
      → Bool
      → Response J × Site redis.State R
  permitted address random w s false = (accepted w, s)
  permitted address random w s true =
      let (r, after) = issued_for redis calls h address random s.redis in
      sending address w (record s { redis = after }) r

  abbrev pub linked :
      Bytes → Result Bytes Bytes → Writer → Site redis.State R → Response J × Site redis.State R
  linked address random w s = permitted address random w s (is_allowed to_lower h address)

  abbrev pub parsed :
      (Bytes → Writer → Site redis.State R → Response J × Site redis.State R)
      → Writer
      → Site redis.State R
      → Option Bytes
      → Response J × Site redis.State R
  parsed next w s none =
      (write_error 400 (codes "invalid_email") (codes "email must be a valid address") w, s)
  parsed next w s (some address) = next address w s

  abbrev pub decoded :
      (Bytes → Writer → Site redis.State R → Response J × Site redis.State R)
      → Writer
      → Site redis.State R
      → Result Bytes Bytes
      → Response J × Site redis.State R
  decoded next w s (err text) = (write_error 400 (codes "invalid_json") text w, s)
  decoded next w s (ok email) = parsed next w s (parse_address email)

  -- The two checks of the body that both issuers begin with.
  abbrev pub with_address :
      (Bytes → Writer → Site redis.State R → Response J × Site redis.State R)
      → Request
      → Writer
      → Site redis.State R
      → Response J × Site redis.State R
  with_address next r w s = decoded next w s (decode_email r.body)

  -- The random token is an argument.
  unfoldable pub request_magic_link :
      Result Bytes Bytes → Request → Writer → Site redis.State R → Response J × Site redis.State R
  request_magic_link random = with_address (λ address. linked address random)

  abbrev pub handed :
      Writer → Site redis.State R → Result AuthError Bytes → Response J × Site redis.State R
  handed w s (ok token) = (write_json 200 (strings ((codes "token", token) ∷ [])) w, s)
  handed w s (err e) = (internal e w, s)

  abbrev pub issued_directly :
      Bytes → Result Bytes Bytes → Writer → Site redis.State R → Response J × Site redis.State R
  issued_directly address random w s =
      let (r, after) = issued_for redis calls h address random s.redis in
      handed w (record s { redis = after }) r

  unfoldable pub issue_test_token :
      Result Bytes Bytes → Request → Writer → Site redis.State R → Response J × Site redis.State R
  issue_test_token random = with_address (λ address. issued_directly address random)

  abbrev pub signed_in :
      Bytes → Writer → Site redis.State R → Result AuthError Bytes → Response J × Site redis.State R
  signed_in address w s (ok id) = (
    write_json 200 (strings ((codes "email", address) ∷ []))
        (set_session_cookie h id session_max_age w),
    s,
  )
  signed_in address w s (err e) = (internal e w, s)

  -- `random` and `now` make the session.
  abbrev pub redeemed :
      Result Bytes Bytes
      → ℕ
      → Writer
      → Site redis.State R
      → Result AuthError Bytes
      → Response J × Site redis.State R
  redeemed random now w s (ok address) =
      let (r, after) = create redis session_json address random now s.redis in
      signed_in address w (record s { redis = after }) r
  redeemed random now w s (err not_found) = (
    write_error 401 (codes "invalid_or_expired_link") (codes "this link is invalid or has expired")
        w,
    s,
  )
  redeemed random now w s (err e) = (internal e w, s)

  unfoldable pub callback :
      Result Bytes Bytes
      → ℕ
      → Request
      → Writer
      → Site redis.State R
      → Response J × Site redis.State R
  callback random now r w s =
      let token = r.query (codes "token") in
      if length token == 0
      then (write_error 400 (codes "missing_token") (codes "token is required") w, s)
      else (let (found, after) = consume redis hex_sum token s.redis in
          redeemed random now w (record s { redis = after }) found)

  unfoldable pub logout : Request → Writer → Site redis.State R → Response J × Site redis.State R
  logout r w s = (
    write 204 nothing (set_session_cookie h [] expired_max_age w),
    forgotten redis (r.cookie session_cookie_name) s,
  )

  unfoldable pub session : Request → Writer → Site redis.State R → Response J × Site redis.State R
  session r w s = (session_of r.session w, s)
