-- ===== src/Auth/Sessions.antt =====
-- internal/auth/sessions.go: the store of sessions.
pub mod Lifetime
use flight_circle_search.Base.{
  ℕ, Option, none, some, List, [], ◌∷◌, ◌++◌, Bytes, codes, Result, ok, err,
}
use flight_circle_search.Auth.{AuthError, not_found, failure}
use flight_circle_search.Auth.Redis.{Redis}

pub record Session : Type 0 where
  pub email : Bytes
  pub created_at : ℕ

-- 30 days
abbrev pub session_ttl : ℕ
session_ttl = 2592000000000000

abbrev pub session_key : Bytes → Bytes
session_key id = codes "session:" ++ id

-- encoding/json for a session.
pub record SessionJson : Type 0 where
  pub marshal : Session → Result Bytes Bytes
  pub unmarshal : Bytes → Result Bytes Session

module _ (redis : Redis) where
  open redis use {State, set, get, del}

  module _ (json : SessionJson) where
    abbrev pub stored : Bytes → Result Bytes (Unit {0}) × State → Result AuthError Bytes × State
    stored id (err e, r) = (err (failure (codes "store session: " ++ e)), r)
    stored id (ok _, r) = (ok id, r)

    abbrev pub marshalled : Bytes → Result Bytes Bytes → State → Result AuthError Bytes × State
    marshalled id (err e) r = (err (failure (codes "marshal session: " ++ e)), r)
    marshalled id (ok bytes) r = stored id (set (session_key id) bytes session_ttl r)

    -- The id is what the random source gives, and `now` the clock of the server.
    unfoldable pub create : Bytes → Result Bytes Bytes → ℕ → State → Result AuthError Bytes × State
    create email (err e) now r = (err (failure (codes "generate session id: " ++ e)), r)
    create email (ok id) now r =
        marshalled id (json.marshal (record { email = email; created_at = now })) r

    abbrev pub decoded : Result Bytes Session → Result AuthError Session
    decoded (ok session) = ok session
    decoded (err e) = err (failure (codes "unmarshal session: " ++ e))

    abbrev pub looked_up : Result Bytes (Option Bytes) × State → Result AuthError Session × State
    looked_up (err e, r) = (err (failure (codes "get session: " ++ e)), r)
    looked_up (ok none, r) = (err not_found, r)
    looked_up (ok (some bytes), r) = (decoded (json.unmarshal bytes), r)

    unfoldable pub get_session : Bytes → State → Result AuthError Session × State
    get_session id r = looked_up (get (session_key id) r)

  abbrev pub deleted : Result Bytes (Unit {0}) × State → Result AuthError (Unit {0}) × State
  deleted (err e, r) = (err (failure (codes "delete session: " ++ e)), r)
  deleted (ok _, r) = (ok tt, r)

  unfoldable pub delete_session : Bytes → State → Result AuthError (Unit {0}) × State
  delete_session id r = deleted (del (session_key id) r)
