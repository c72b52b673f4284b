-- ===== src/Auth/Sessions/Lifetime.antt =====
-- How long a session is found.
use flight_circle_search.Base.{
  ℕ, ◌≡◌, refl, Option, Bytes, ltb, if◌then◌else◌, Result, ok, err, arith,
}
use flight_circle_search.Auth.{not_found}
use flight_circle_search.Auth.Redis.{Redis, IsRedis}
use flight_circle_search.Auth.Sessions.{
  Session, SessionJson, session_ttl, session_key, create, get_session, delete_session, stored,
  marshalled, deleted,
}

module _ (redis : Redis) (good : IsRedis redis) (json : SessionJson) where
  open redis use {State, value, wait, get, set, del}

  deleted_ok :
      (p : Result Bytes (Unit {0}) × State) (s' : State)
      → deleted redis p ≡ (ok tt, s')
      → p ≡ (ok tt, s')
  deleted_ok (ok _, s) s' h = cc
  deleted_ok (err e, s) s' h = ground arith

  stored_ok :
      (id i : Bytes) (p : Result Bytes (Unit {0}) × State) (s' : State)
      → stored redis json i p ≡ (ok id, s')
      → (id ≡ i) × (p ≡ (ok tt, s'))
  stored_ok id i (ok _, s) s' h = (cc, cc)
  stored_ok id i (err e, s) s' h = ground arith

  marshalled_ok :
      (id i : Bytes) (m : Result Bytes Bytes) (s s' : State)
      → marshalled redis json i m s ≡ (ok id, s')
      → (bytes : Bytes) × (m ≡ ok bytes) × (set (session_key id) bytes session_ttl s ≡ (ok tt, s'))
  marshalled_ok id i (err e) s s' h = ground arith
  marshalled_ok id i (ok bytes) s s' h =
      let (same, put) = stored_ok id i (set (session_key i) bytes session_ttl s) s' h in
      (bytes, refl, rw same put)

  set_of_create :
      (email id : Bytes) (random : Result Bytes Bytes) (now : ℕ) (s s' : State)
      → create redis json email random now s ≡ (ok id, s')
      → (bytes : Bytes) × (json.marshal (record { email = email; created_at = now }) ≡ ok bytes)
        × (set (session_key id) bytes session_ttl s ≡ (ok tt, s'))
  unfolding create
  set_of_create email id (err e) now s s' h = ground arith
  set_of_create email id (ok i) now s s' h =
      marshalled_ok id i (json.marshal (record { email = email; created_at = now })) s s' h

  -- A session that was created is found, as long as the read succeeds and the JSON of a session reads back as it, with its address and its time of creation while less than 30 days have passed, and is not found from then on.
  pub get_session-create :
      (email id : Bytes) (random : Result Bytes Bytes) (now d : ℕ) (s s' u : State)
      (v : Option Bytes)
      → ((session : Session) (bytes : Bytes)
          → json.marshal session ≡ ok bytes
          → json.unmarshal bytes ≡ ok session)
      → create redis json email random now s ≡ (ok id, s')
      → get (session_key id) (wait d s') ≡ (ok v, u)
      → (get_session redis json id (wait d s')).0 ≡ (
          if ltb d session_ttl
          then ok (record { email = email; created_at = now })
          else err not_found)
  unfolding get_session
  get_session-create email id random now d s s' u v j h g =
      let (bytes, m, put) = set_of_create email id random now s s' h in
      let (seen, _) = good.get_value (session_key id) (wait d s') u v g in
      ground (
        arith,
        good.set_value (session_key id) bytes session_ttl d s s' put,
        j (record { email = email; created_at = now }) bytes m,
      )

  -- A session that was deleted is not found, whenever it is looked up, if the read succeeds.
  pub get_session-delete :
      (id : Bytes) (d : ℕ) (s s' u : State) (v : Option Bytes)
      → delete_session redis id s ≡ (ok tt, s')
      → get (session_key id) (wait d s') ≡ (ok v, u)
      → (get_session redis json id (wait d s')).0 ≡ err not_found
  unfolding delete_session get_session
  get_session-delete id d s s' u v h g =
      let (seen, _) = good.get_value (session_key id) (wait d s') u v g in
      ground
        (arith, good.del_value (session_key id) d s s' (deleted_ok (del (session_key id) s) s' h))
