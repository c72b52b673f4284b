-- ===== src/Http/Login.antt =====
-- The login from the link to the session, and its end.
use flight_circle_search.Base.{
  ℕ, ◌≡◌, refl, false, Option, some, [], ◌∷◌, Bytes, codes, bytes_eq, Result, ok, err, ltb, length,
  nat_eq, ◌==◌, if◌then◌else◌, Bool-cases, inl, inr, All, subst, List, ◌++◌, true, ap,
}
use flight_circle_search.Auth.{not_found}
use flight_circle_search.Auth.Redis.{Redis, IsRedis}
use flight_circle_search.Auth.Tokens.{consume}
use flight_circle_search.Auth.Sessions.{
  Session, create, get_session, delete_session, session_key, session_ttl,
}
use flight_circle_search.Auth.Sessions.Lifetime.{get_session-create, get_session-delete}
use flight_circle_search.Http.{
  Request, Response, Writer, Site, strings, write_json, write_error, Cookie, SameSite, write,
}
use flight_circle_search.Http.Middleware.{require_auth, session_cookie_name, unauthorized_text}
use flight_circle_search.Http.Handlers.{
  Calls, AuthHandlers, callback, session, logout, set_session_cookie,
}

module _ {J : Type 0} where
  abbrev pub welcome : Bytes → Writer → Response J
  welcome address = write_json 200 (strings ((codes "email", address) ∷ []))

  -- The request has each cookie that the answer set.
  abbrev pub Carries : Request → Response J → Type 0
  Carries r p = All (λ (c : Cookie). r.cookie c.name ≡ some c.value) p.cookies

  abbrev pub denied : Writer → Response J
  denied = write_error 401 (codes "unauthorized") unauthorized_text

-- The writer with the cookie of the session on it, for 30 days.
abbrev pub logged_in : AuthHandlers → Bytes → Writer → Writer
logged_in h id w = record w {
  cookies =
      w.cookies
      ++ record {
        name = codes "session";
        value = id;
        path = codes "/";
        max_age = 2592000;
        http_only = true;
        secure = h.cookie_secure;
        same_site = if h.cookie_secure then SameSite.unrestricted else SameSite.lax;
      }
        ∷ [];
}

carried_last :
    (r : Request) (c : Cookie) (cookies : List Cookie)
    → All (λ (d : Cookie). r.cookie d.name ≡ some d.value) (cookies ++ c ∷ [])
    → r.cookie c.name ≡ some c.value
carried_last r c [] h = h.0
carried_last r c (d ∷ cookies) h = carried_last r c cookies h.1

carried_session :
    (J : Type 0) (r : Request) (h : AuthHandlers) (address id : Bytes) (w : Writer)
    → Carries {J = J} r (welcome address (logged_in h id w))
    → r.cookie session_cookie_name ≡ some id
unfolding write_json write
carried_session J r h address id w c = carried_last r _ w.cookies c

module _ {R : Type 0} (J : Type 0) (redis : Redis) (calls : Calls) (h : AuthHandlers) where
  open calls use {hex_sum, session_json}

  -- The endpoint that tells who is logged in, behind the check of the session.
  abbrev pub who : Request → Writer → Site redis.State R → Response J × Site redis.State R
  who = require_auth redis session_json (session redis calls h)

  who-denied :
      (r : Request) (w : Writer) (s : Site redis.State R) (id : Bytes)
      → r.cookie session_cookie_name ≡ some id
      → (get_session redis session_json id s.redis).0 ≡ err not_found
      → (who r w s).0 ≡ denied w
  unfolding require_auth session
  who-denied r w s id c g = rw (c, g) refl

  who-welcome :
      (r : Request) (w : Writer) (s : Site redis.State R) (id : Bytes) (it : Session)
      → r.cookie session_cookie_name ≡ some id
      → (get_session redis session_json id s.redis).0 ≡ ok it
      → (who r w s).0 ≡ welcome it.email w
  unfolding require_auth session
  who-welcome r w s id it c g = rw (c, g) refl

  callback_lem :
      (random : Result Bytes Bytes) (now : ℕ) (r : Request) (w : Writer) (s : Site redis.State R)
      (address id : Bytes) (s1 s2 : redis.State)
      → (length (r.query (codes "token")) == 0) ≡ false
      → consume redis hex_sum (r.query (codes "token")) s.redis ≡ (ok address, s1)
      → create redis session_json address random now s1 ≡ (ok id, s2)
      → callback {J = J} redis calls h random now r w s
        ≡ (welcome address (logged_in h id w), record s { redis = s2 })
  unfolding callback set_session_cookie
  callback_lem random now r w s address id s1 s2 t c m = rw (t, c, m) refl

  module _ (good : IsRedis redis) where
    -- If the token of a callback is good and the session can be stored, the answer sets the cookie of the session, for 30 days, and welcomes the address. If nothing but time passes in Redis then, so that nobody logs this session out, if Redis answers and the JSON of a session reads back as it, a later request that has the cookies of that answer is welcomed under the same address while less than 30 days have passed, and is denied from then on.
    pub session-callback :
        (random : Result Bytes Bytes) (now d : ℕ) (r r' : Request) (w w' : Writer)
        (s : Site redis.State R) (address id : Bytes) (s1 s2 u : redis.State) (v : Option Bytes)
        → (length (r.query (codes "token")) == 0) ≡ false
        → consume redis hex_sum (r.query (codes "token")) s.redis ≡ (ok address, s1)
        → create redis session_json address random now s1 ≡ (ok id, s2)
        → ((it : Session) (bytes : Bytes)
            → session_json.marshal it ≡ ok bytes
            → session_json.unmarshal bytes ≡ ok it)
        → Carries r' (callback {J = J} redis calls h random now r w s).0
        → redis.get (session_key id) (redis.wait d s2) ≡ (ok v, u)
        → (callback {J = J} redis calls h random now r w s
            ≡ (welcome address (logged_in h id w), record s { redis = s2 }))
          × ((who r' w' (record s { redis = redis.wait d s2 })).0
              ≡ (if ltb d 2592000000000000 then welcome address w' else denied w'))
    session-callback random now d r r' w w' s address id s1 s2 u v t c m j held g =
        let answered = callback_lem random now r w s address id s1 s2 t c m in
        let k =
          carried_session J r' h address id w (subst (Carries r') (ap (λ x. x.0) answered) held) in
        let found =
          get_session-create redis good session_json address id random now d s1 s2 u v j m g in
        (
          answered,
          elim (Bool-cases (ltb d session_ttl)) [
            | inl q ↦ rw q (who-welcome r' w' _ id _ k (rw q at found))
            | inr q ↦ rw q (who-denied r' w' _ id k (rw q at found))
          ],
        )

    -- If the deletion succeeds, a request with the cookie that was logged out is denied, whenever it comes, as long as Redis answers.
    pub session-logout :
        (d : ℕ) (r r' : Request) (w w' : Writer) (s : Site redis.State R) (id : Bytes)
        (s1 u : redis.State) (v : Option Bytes)
        → r.cookie session_cookie_name ≡ some id
        → r'.cookie session_cookie_name ≡ some id
        → delete_session redis id s.redis ≡ (ok tt, s1)
        → redis.get (session_key id) (redis.wait d s1) ≡ (ok v, u)
        → ((logout {J = J} redis calls h r w s).1.redis ≡ s1)
          × ((who r' w' (record s { redis = redis.wait d s1 })).0 ≡ denied w')
    unfolding logout
    session-logout d r r' w w' s id s1 u v c k e g = (
      rw (c, e) refl,
      who-denied r' w' _ id k (get_session-delete redis good session_json id d s.redis s1 u v e g),
    )
