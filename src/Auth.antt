-- ===== src/Auth.antt =====
-- internal/auth: magic-link tokens (tokens.go) and sessions (sessions.go) over Redis. The Redis client,
-- SHA-256 with its hexadecimal form, the random bytes with their base64 form, and the JSON of a
-- session are parameters. An error carries the text that wraps it.
pub mod Redis
pub mod Tokens
pub mod Sessions
use flight_circle_search.Base.{Bytes}

pub data AuthError : Type 0 where
  not_found rate_limited : AuthError
  failure : Bytes → AuthError
