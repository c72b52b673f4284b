-- ===== src/Examples/Requests.antt =====
-- Requests of the login at concrete inputs.
use flight_circle_search.Base.{
  ℕ, ◌≡◌, refl, true, false, none, some, [], ◌∷◌, Bytes, codes, bytes_eq, bytes_beq, nat_eq, ltb,
  if◌then◌else◌, Result, ok, err, lookup, insert, contains, arith,
}
use flight_circle_search.Jobs.{SearchRequest}
use flight_circle_search.Auth.Sessions.{SessionJson, Session, create, session_key, delete_session}
use flight_circle_search.Auth.Tokens.{rate_key, consume, consume_script, token_key}
use flight_circle_search.Http.{Request, Writer, Site, write_json, write}
use flight_circle_search.Http.Handlers.{
  Calls, AuthHandlers, is_allowed, request_magic_link, callback, logout, set_session_cookie,
}
use flight_circle_search.Http.Links.{
  IsSending, request_magic_link-IsSending, request_magic_link_reveals,
}
use flight_circle_search.Http.Login.{
  who, welcome, denied, session-callback, session-logout, Carries, logged_in,
}
use flight_circle_search.Examples.Data.{empty_world}
use flight_circle_search.Examples.Server.{Server, server, server-IsRedis}
use flight_circle_search.Examples.Logins.{
  empty, sum, address, raw, after_issue, after_consume, consumed_once,
}

abbrev pub read_session : Bytes → Result Bytes Session
read_session [] = err []
read_session (c ∷ email) = ok (record { email = email; created_at = c })

abbrev pub json : SessionJson
json = record { marshal = λ s. ok (s.created_at ∷ s.email); unmarshal = read_session }

json_reads :
    (session : Session) (bytes : Bytes)
    → json.marshal session ≡ ok bytes
    → json.unmarshal bytes ≡ ok session
json_reads session [] h = ground arith
json_reads session (c ∷ email) h = ground arith

abbrev pub calls : Calls
calls = record {
  decode_email = λ body. ok body;
  parse_address = λ email. some email;
  to_lower = λ text. text;
  query_escape = λ text. text;
  hex_sum = sum;
  session_json = json;
}

abbrev handlers : AuthHandlers
handlers = record {
  rate_limit_per_day = 5;
  app_origin = codes "https://x";
  cookie_secure = true;
  allowed_emails = address ∷ [];
}

abbrev pub blank : Writer
blank = record { headers = []; cookies = [] }

-- A POST of a body.
abbrev pub posting : Bytes → Request
posting body = record {
  method = codes "POST";
  path = codes "/";
  cookie = λ name. none;
  query = λ name. [];
  path_value = λ name. [];
  body = body;
  session = none;
  request_id = none;
}

-- A request with the cookie of the session that is made below.
abbrev pub with_session : Request
with_session = record (posting []) { cookie = λ name. some raw }

abbrev with_token : Request
with_token = record (posting []) { query = λ name. raw }

abbrev pub site : Server → Site Server (SearchRequest ℕ)
site s = record { redis = s; sent = []; jobs = empty_world }

request_magic_link-IsSending_example :
    IsSending
      (Unit {0})
      server
      calls
      handlers
      (ok raw)
      (posting address)
      (site empty)
      (request_magic_link server calls handlers (ok raw) (posting address) blank (site empty))
request_magic_link-IsSending_example =
    request_magic_link-IsSending (Unit {0}) server calls handlers (ok raw) (posting address) blank
      (site empty)

allowed : is_allowed calls.to_lower handlers address ≡ true
unfolding is_allowed contains bytes_beq
allowed = refl

not_allowed : is_allowed calls.to_lower handlers (codes "c@d.e") ≡ false
unfolding is_allowed contains bytes_beq
not_allowed = refl

-- Five links were asked for.
abbrev busy : Server
busy = record empty { counts = (codes "authrate:a@b.c", 5) ∷ [] }

sixth :
    server.incr (rate_key address) busy
    ≡ (ok 6, record busy { counts = (codes "authrate:a@b.c", 6) ∷ [] })
unfolding lookup insert bytes_beq
sixth = refl

request_magic_link_reveals_example :
    ((request_magic_link {J = Unit {0}} server calls handlers
        (ok raw)
        (posting address)
        blank
        (site busy)).0.status
      ≡ 429)
    × ((request_magic_link {J = Unit {0}} server calls handlers
          (ok raw)
          (posting (codes "c@d.e"))
          blank
          (site busy)).0.status
        ≡ 202)
request_magic_link_reveals_example =
    request_magic_link_reveals (Unit {0}) server calls handlers (ok raw) (posting address)
      (posting (codes "c@d.e")) address (codes "c@d.e") 6 blank (site busy)
      (record busy { counts = (codes "authrate:a@b.c", 6) ∷ [] }) (address, refl, refl)
      (codes "c@d.e", refl, refl) allowed not_allowed sixth refl

abbrev pub signed_in : Server
signed_in = record after_consume {
  texts =
      (codes "authtoken:t", ([], 0)) ∷ (codes "session:t", (7 ∷ address, 2592000000000100)) ∷ [];
}

signed : create server json address (ok raw) 7 after_consume ≡ (ok raw, signed_in)
unfolding create insert lookup bytes_beq
signed = refl

with_session-Carries :
    Carries {J = Unit {0}} with_session
      (callback server calls handlers (ok raw) 7 with_token blank (site after_issue)).0
unfolding callback set_session_cookie consume consume_script token_key create insert lookup
    bytes_beq write_json write
with_session-Carries = (refl, tt)

session-callback_example :
    (callback {J = Unit {0}} server calls handlers (ok raw) 7 with_token blank (site after_issue)
      ≡ (welcome address (logged_in handlers raw blank), site signed_in))
    × ((who (Unit {0}) server calls handlers with_session blank (site (server.wait 3 signed_in))).0
        ≡ (if ltb 3 2592000000000000 then welcome address blank else denied blank))
session-callback_example =
    session-callback (Unit {0}) server calls handlers server-IsRedis (ok raw) 7 3 with_token
      with_session blank blank (site after_issue) address raw after_consume signed_in
      (server.wait 3 signed_in) (server.value (session_key raw) (server.wait 3 signed_in)) refl
      consumed_once signed json_reads with_session-Carries refl

abbrev signed_out : Server
signed_out = (server.del (session_key raw) signed_in).1

session_deleted : delete_session server raw signed_in ≡ (ok tt, signed_out)
unfolding delete_session
session_deleted = refl

session-logout_example :
    ((logout {J = Unit {0}} server calls handlers with_session blank (site signed_in)).1.redis
      ≡ signed_out)
    × ((who (Unit {0}) server calls handlers with_session blank (site (server.wait 3 signed_out))).0
        ≡ denied blank)
session-logout_example =
    session-logout (Unit {0}) server calls handlers server-IsRedis 3 with_session with_session blank
      blank (site signed_in) raw signed_out (server.wait 3 signed_out)
      (server.value (session_key raw) (server.wait 3 signed_out)) refl refl session_deleted refl
