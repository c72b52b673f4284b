-- ===== src/Http/Silent.antt =====
-- The endpoints of the login leave the job engine and the headers alone.
use flight_circle_search.Auth.Sessions.{Session}
use flight_circle_search.Http.Middleware.{session_cookie_name}
use flight_circle_search.Http.Links.{with_address_rule}
use flight_circle_search.Http.Open.{IsOpen, error-IsOpen, strings-IsOpen, write-IsOpen}
use flight_circle_search.Http.{nothing, Writer, Site, Request}
use flight_circle_search.Auth.{not_found, rate_limited, failure, AuthError}
use flight_circle_search.Http.Handlers.{
  Calls, AuthHandlers, internal, sending, permitted, is_allowed, request_magic_link, handed,
  issue_test_token, signed_in, set_session_cookie, redeemed, callback, forgotten, logout,
  session_of, session, linked, issued_directly,
}
use flight_circle_search.Auth.Redis.{Redis}
use flight_circle_search.Base.{
  ℕ, ◌≡◌, refl, Bool, true, false, Option, none, some, Bytes, codes, Result, ok, err, Bool-cases,
  inl, inr, nat_eq, ◌==◌, length,
}

module _ {R : Type 0} (J : Type 0) (redis : Redis) (calls : Calls) (h : AuthHandlers) where
  internal-IsOpen :
      (e : AuthError) (w : Writer) (s t : Site redis.State R)
      → t.jobs ≡ s.jobs
      → IsOpen w s (internal {J = J} e w, t)
  internal-IsOpen e w s t j = error-IsOpen w s t 500 _ _ j

  sending-IsOpen :
      (address : Bytes) (w : Writer) (s t : Site redis.State R) (found : Result AuthError Bytes)
      → t.jobs ≡ s.jobs
      → IsOpen w s (sending {J = J} redis calls h address w t found)
  sending-IsOpen address w s t (ok token) j = strings-IsOpen w s _ 202 w _ j refl
  sending-IsOpen address w s t (err rate_limited) j = error-IsOpen w s t 429 _ _ j
  sending-IsOpen address w s t (err not_found) j = internal-IsOpen not_found w s t j
  sending-IsOpen address w s t (err (failure text)) j = internal-IsOpen (failure text) w s t j

  permitted-IsOpen :
      (address : Bytes) (random : Result Bytes Bytes) (w : Writer) (s : Site redis.State R)
      (b : Bool)
      → IsOpen w s (permitted {J = J} redis calls h address random w s b)
  permitted-IsOpen address random w s false = strings-IsOpen w s s 202 w _ refl refl
  permitted-IsOpen address random w s true = sending-IsOpen address w s _ _ refl

  pub request_magic_link-IsOpen :
      (random : Result Bytes Bytes) (r : Request) (w : Writer) (s : Site redis.State R)
      → IsOpen w s (request_magic_link {J = J} redis calls h random r w s)
  unfolding request_magic_link
  request_magic_link-IsOpen random r w s =
      with_address_rule J redis calls h (IsOpen w s)
        (λ address. linked redis calls h address random) r w s
        (λ code text. error-IsOpen w s s 400 code text refl)
        (λ address n. permitted-IsOpen address random w s (is_allowed calls.to_lower h address))

  handed-IsOpen :
      (w : Writer) (s t : Site redis.State R) (found : Result AuthError Bytes)
      → t.jobs ≡ s.jobs
      → IsOpen w s (handed {J = J} redis calls h w t found)
  handed-IsOpen w s t (ok token) j = strings-IsOpen w s t 200 w _ j refl
  handed-IsOpen w s t (err e) j = internal-IsOpen e w s t j

  pub issue_test_token-IsOpen :
      (random : Result Bytes Bytes) (r : Request) (w : Writer) (s : Site redis.State R)
      → IsOpen w s (issue_test_token {J = J} redis calls h random r w s)
  unfolding issue_test_token
  issue_test_token-IsOpen random r w s =
      with_address_rule J redis calls h (IsOpen w s)
        (λ address. issued_directly redis calls h address random) r w s
        (λ code text. error-IsOpen w s s 400 code text refl)
        (λ address n. handed-IsOpen w s _ _ refl)

  signed_in-IsOpen :
      (address : Bytes) (w : Writer) (s t : Site redis.State R) (found : Result AuthError Bytes)
      → t.jobs ≡ s.jobs
      → IsOpen w s (signed_in {J = J} redis calls h address w t found)
  unfolding set_session_cookie
  signed_in-IsOpen address w s t (ok id) j = strings-IsOpen w s t 200 _ _ j refl
  signed_in-IsOpen address w s t (err e) j = internal-IsOpen e w s t j

  redeemed-IsOpen :
      (random : Result Bytes Bytes) (now : ℕ) (w : Writer) (s t : Site redis.State R)
      (found : Result AuthError Bytes)
      → t.jobs ≡ s.jobs
      → IsOpen w s (redeemed {J = J} redis calls h random now w t found)
  redeemed-IsOpen random now w s t (ok address) j = signed_in-IsOpen address w s _ _ j
  redeemed-IsOpen random now w s t (err not_found) j = error-IsOpen w s t 401 _ _ j
  redeemed-IsOpen random now w s t (err rate_limited) j = internal-IsOpen rate_limited w s t j
  redeemed-IsOpen random now w s t (err (failure text)) j = internal-IsOpen (failure text) w s t j

  pub callback-IsOpen :
      (random : Result Bytes Bytes) (now : ℕ) (r : Request) (w : Writer) (s : Site redis.State R)
      → IsOpen w s (callback {J = J} redis calls h random now r w s)
  unfolding callback
  callback-IsOpen random now r w s = elim (Bool-cases (length (r.query (codes "token")) == 0)) [
    | inl e ↦ rw (callback, e) (error-IsOpen w s s 400 _ _ refl)
    | inr e ↦ rw (callback, e) (redeemed-IsOpen random now w s _ _ refl)
  ]

  forgotten_jobs :
      (id : Option Bytes) (s : Site redis.State R) → (forgotten redis id s).jobs ≡ s.jobs
  forgotten_jobs none s = refl
  forgotten_jobs (some id) s = refl

  pub logout-IsOpen :
      (r : Request) (w : Writer) (s : Site redis.State R)
      → IsOpen w s (logout {J = J} redis calls h r w s)
  unfolding logout set_session_cookie
  logout-IsOpen r w s =
      write-IsOpen w s _ 204 _ nothing (forgotten_jobs (r.cookie session_cookie_name) s) refl refl

  session_of-IsOpen :
      (found : Option Session) (w : Writer) (s : Site redis.State R)
      → IsOpen w s (session_of {J = J} found w, s)
  session_of-IsOpen none w s = error-IsOpen w s s 401 _ _ refl
  session_of-IsOpen (some it) w s = strings-IsOpen w s s 200 w _ refl refl

  pub session-IsOpen :
      (r : Request) (w : Writer) (s : Site redis.State R)
      → IsOpen w s (session {J = J} redis calls h r w s)
  unfolding session
  session-IsOpen r w s = session_of-IsOpen r.session w s
