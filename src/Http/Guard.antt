-- ===== src/Http/Guard.antt =====
-- What stands behind the check of a session.
use flight_circle_search.Http.Open.{IsOpen, error-IsOpen, IsOpen-from}
use flight_circle_search.Base.{
  subst, sym, ap, ◌∙◌, ◌≡◌, refl, ◌⊎◌, inl, inr, Option, none, some, Bytes, Result, ok, err, arith,
  Option-cases,
}
use flight_circle_search.Auth.{AuthError, not_found, rate_limited, failure}
use flight_circle_search.Auth.Redis.{Redis, IsRedis}
use flight_circle_search.Auth.Sessions.{
  Session, SessionJson, get_session, session_key, looked_up, decoded,
}
use flight_circle_search.Http.{
  Request, Response, Writer, Site, Handler, write_error, write_json, write,
}
use flight_circle_search.Http.Middleware.{require_auth, with_cookie, admitted, session_cookie_name}

module _ {R J S : Type 0} where
  -- The request is answered with 401 or 500, which shows no job, and neither the links nor the job engine are touched.
  abbrev pub IsDenied : Writer → Site S R → Response J × Site S R → Type 0
  IsDenied w s p = ((p.0.status ≡ 401) ⊎ (p.0.status ≡ 500)) × (p.1.sent ≡ s.sent) × IsOpen w s p

-- The session that a request shows: the one that Redis keeps under the id in its cookie.
abbrev pub Shows : (redis : Redis) → SessionJson → Request → redis.State → Session → Type 0
Shows redis json r s session =
    (id : Bytes) × (bytes : Bytes) × (r.cookie session_cookie_name ≡ some id)
    × (redis.value (session_key id) s ≡ some bytes)
    × (json.unmarshal bytes ≡ ok session)

module _ (redis : Redis) (json : SessionJson) where
  decoded_ok :
      (m : Result Bytes Session) {session : Session}
      → decoded redis json m ≡ ok session
      → m ≡ ok session
  decoded_ok (ok session) h = cc
  decoded_ok (err e) h = ground arith

  looked_up_ok :
      (p : Result Bytes (Option Bytes) × redis.State) {session : Session}
      → (looked_up redis json p).0 ≡ ok session
      → (bytes : Bytes) × (p ≡ (ok (some bytes), (looked_up redis json p).1))
        × (json.unmarshal bytes ≡ ok session)
  looked_up_ok (err e, s) h = ground arith
  looked_up_ok (ok none, s) h = ground arith
  looked_up_ok (ok (some bytes), s) h = (bytes, refl, decoded_ok (json.unmarshal bytes) h)

  get_session_ok :
      (id : Bytes) (s : redis.State) {session : Session}
      → (get_session redis json id s).0 ≡ ok session
      → (bytes : Bytes) × (redis.get (session_key id) s
          ≡ (ok (some bytes), (get_session redis json id s).1))
        × (json.unmarshal bytes ≡ ok session)
  unfolding get_session
  get_session_ok id s h = looked_up_ok (redis.get (session_key id) s) h

  module _ {R J : Type 0} (next : Handler (Site redis.State R) J) where
    -- The handler ran for a request that shows a session, with that session in its context and the state as it was, or the request was denied.
    abbrev pub IsGuarded :
        Request → Writer → Site redis.State R → Response J × Site redis.State R → Type 0
    IsGuarded r w s p =
        ((session : Session) × Shows redis json r s.redis session
          × (p ≡ next (record r { session = some session }) w s))
        ⊎ IsDenied w s p

    admitted_cases :
        (r : Request) (w : Writer) (s : Site redis.State R) (found : Result AuthError Session)
        → ((session : Session) × (found ≡ ok session)
            × (admitted redis json next r w s found
                ≡ next (record r { session = some session }) w s))
          ⊎ IsDenied w s (admitted redis json next r w s found)
    unfolding write_error write_json write
    admitted_cases r w s (ok session) = inl (session, refl, refl)
    admitted_cases r w s (err not_found) = inr (inl refl, refl, error-IsOpen w s s 401 _ _ refl)
    admitted_cases r w s (err rate_limited) = inr (inr refl, refl, error-IsOpen w s s 500 _ _ refl)
    admitted_cases r w s (err (failure e)) = inr (inr refl, refl, error-IsOpen w s s 500 _ _ refl)

    cookie_cases :
        IsRedis redis
        → (r : Request) (w : Writer) (s : Site redis.State R) (id : Bytes)
        → r.cookie session_cookie_name ≡ some id
        → IsGuarded r w s (with_cookie redis json next r w s (some id))
    cookie_cases good r w s id h =
        let q = get_session redis json id s.redis in
        elim (admitted_cases r w (record s { redis = q.1 }) q.0) [
          | inr (a, b, o) ↦ inr (a, b, IsOpen-from refl o)
          | inl (session, e, run) ↦
              let (bytes, g, u) = get_session_ok id s.redis e in
              let (seen, same) = good.get_value (session_key id) s.redis q.1 (some bytes) g in
              inl (
                session,
                (id, bytes, h, sym seen, u),
                run
                    ∙ ap
                        (λ x. next (record r { session = some session }) w (record s { redis = x }))
                        same,
              )
        ]

    -- A protected handler runs only for a request that shows a session of Redis, with that session in its context and the state as it was; every other request is answered with 401 or 500, and leaves the links and the job engine as they were.
    pub require_auth-IsGuarded :
        IsRedis redis
        → (r : Request) (w : Writer) (s : Site redis.State R)
        → IsGuarded r w s (require_auth redis json next r w s)
    unfolding require_auth write_error write_json write
    require_auth-IsGuarded good r w s = elim (Option-cases (r.cookie session_cookie_name)) [
      | inl h ↦
          subst (λ o. IsGuarded r w s (with_cookie redis json next r w s o)) (sym h)
            (inr (inl refl, refl, error-IsOpen w s s 401 _ _ refl))
      | inr (id, h) ↦
          subst (λ o. IsGuarded r w s (with_cookie redis json next r w s o)) (sym h)
            (cookie_cases good r w s id h)
    ]
