-- ===== src/Auth/Tokens.antt =====
-- internal/auth/tokens.go: the store of magic-link tokens. Times are in nanoseconds.
pub mod Single
pub mod Used
use flight_circle_search.Base.{
  ℕ, Bool, true, false, ◌&&◌, Option, none, some, ◌++◌, Bytes, codes, ◌==◌, nat_eq, ltb, length,
  if◌then◌else◌, Result, ok, err,
}
use flight_circle_search.Auth.{AuthError, not_found, rate_limited, failure}
use flight_circle_search.Auth.Redis.{Redis}

-- 15 minutes
abbrev pub token_ttl : ℕ
token_ttl = 900000000000

-- 24 hours
abbrev pub rate_limit_window : ℕ
rate_limit_window = 86400000000000

abbrev pub rate_key : Bytes → Bytes
rate_key email = codes "authrate:" ++ email

-- `hex.EncodeToString(sha256.Sum256(…))` is a parameter.
module _ (redis : Redis) (hex_sum : Bytes → Bytes) where
  open redis use {State, incr, expire, set, get, del}

  unfoldable pub token_key : Bytes → Bytes
  token_key token = codes "authtoken:" ++ hex_sum token

  abbrev pub stored : Bytes → Result Bytes (Unit {0}) × State → Result AuthError Bytes × State
  stored token (err e, s) = (err (failure (codes "store token: " ++ e)), s)
  stored token (ok _, s) = (ok token, s)

  -- The end of `Issue`; the random token is an argument, or the error of the random source.
  unfoldable pub store_token : Bytes → Result Bytes Bytes → State → Result AuthError Bytes × State
  store_token email (err e) s = (err (failure (codes "generate token: " ++ e)), s)
  store_token email (ok token) s = stored token (set (token_key token) email token_ttl s)

  abbrev pub limited : ℕ → Bytes → Result Bytes Bytes → ℕ → State → Result AuthError Bytes × State
  limited per_day email random count s =
      if ltb 0 per_day && ltb per_day count
      then (err rate_limited, s)
      else store_token email random s

  abbrev pub windowed :
      ℕ
      → Bytes
      → Result Bytes Bytes
      → ℕ
      → Result Bytes (Unit {0}) × State
      → Result AuthError Bytes × State
  windowed per_day email random count (err e, s) =
      (err (failure (codes "set rate limit ttl: " ++ e)), s)
  windowed per_day email random count (ok _, s) = limited per_day email random count s

  abbrev pub counted :
      ℕ → Bytes → Result Bytes Bytes → Result Bytes ℕ × State → Result AuthError Bytes × State
  counted per_day email random (err e, s) = (err (failure (codes "incr rate limit: " ++ e)), s)
  counted per_day email random (ok count, s) =
      if count == 1
      then windowed per_day email random count (expire (rate_key email) rate_limit_window s)
      else limited per_day email random count s

  unfoldable pub issue : ℕ → Bytes → Result Bytes Bytes → State → Result AuthError Bytes × State
  issue per_day email random s = counted per_day email random (incr (rate_key email) s)

  abbrev pub deleted : Bytes → Result Bytes (Unit {0}) × State → Result Bytes (Option Bytes) × State
  deleted v (err e, s) = (err e, s)
  deleted v (ok _, s) = (ok (some v), s)

  -- The `if v then … end` of the script.
  abbrev pub taken :
      Bytes → Result Bytes (Option Bytes) × State → Result Bytes (Option Bytes) × State
  taken key (ok (some v), s) = deleted v (del key s)
  taken key (ok none, s) = (ok none, s)
  taken key (err e, s) = (err e, s)

  -- `consumeScript`, which Redis runs without a command of another client in between.
  unfoldable pub consume_script : Bytes → State → Result Bytes (Option Bytes) × State
  consume_script key s = taken key (get key s)

  abbrev pub consumed : Result Bytes (Option Bytes) × State → Result AuthError Bytes × State
  consumed (ok none, s) = (err not_found, s)
  consumed (err e, s) = (err (failure (codes "consume token: " ++ e)), s)
  consumed (ok (some email), s) = if length email == 0 then (err not_found, s) else (ok email, s)

  unfoldable pub consume : Bytes → State → Result AuthError Bytes × State
  consume token s = consumed (consume_script (token_key token) s)
