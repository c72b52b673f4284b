-- ===== src/Http.antt =====
-- internal/http: what a handler reads of a request, what it writes, and the errors that it writes
-- (errors.go). net/http has parsed the request: the method, the path, a cookie by its name (none if
-- it is not there), a query parameter or a wildcard
-- of the path by its name (empty if it is not there) and the body. `J` is
-- what else a body can be.
pub mod Middleware
pub mod Handlers
pub mod Open
pub mod Headers
pub mod Guard
pub mod Links
pub mod Silent
pub mod Login
use flight_circle_search.Base.{ℕ, Bool, Option, List, [], ◌∷◌, Bytes, codes, bytes_eq, insert}
use flight_circle_search.Jobs.Store.{World}
use flight_circle_search.Auth.Sessions.{Session}

-- A request, with the two values that the middleware puts into its context.
pub record Request : Type 0 where
  pub method : Bytes
  pub path : Bytes
  pub cookie : Bytes → Option Bytes
  pub query : Bytes → Bytes
  pub path_value : Bytes → Bytes
  pub body : Bytes
  pub session : Option Session
  pub request_id : Option Bytes

pub data SameSite : Type 0 where
  lax unrestricted : SameSite

-- `http.Cookie`; an int is the word that holds it.
pub record Cookie : Type 0 where
  pub name : Bytes
  pub value : Bytes
  pub path : Bytes
  pub max_age : ℕ
  pub http_only : Bool
  pub secure : Bool
  pub same_site : SameSite

-- The part of a response that is open before its status is written.
pub record Writer : Type 0 where
  pub headers : List (Bytes × Bytes)
  pub cookies : List Cookie

pub data Body (J : Type 0) : Type 0 where
  nothing : Body J
  raw : Bytes → Body J
  strings : List (Bytes × Bytes) → Body J
  value : J → Body J

pub record Response (J : Type 0) : Type 0 where
  pub status : ℕ
  pub headers : List (Bytes × Bytes)
  pub cookies : List Cookie
  pub body : Body J

abbrev pub set_header : Bytes → Bytes → Writer → Writer
set_header name v w = record w { headers = insert name v w.headers }

-- What the handlers share: Redis, the links that were handed to the sender of mails, and the job engine.
pub record Site (S R : Type 0) : Type 0 where
  pub redis : S
  pub sent : List (Bytes × Bytes)
  pub jobs : World R

-- A handler of requests over a state.
abbrev pub Handler : Type 0 → Type 0 → Type 0
Handler W J = Request → Writer → W → Response J × W

module _ {J : Type 0} where
  -- `w.WriteHeader(status)`, and what is written behind it
  unfoldable pub write : ℕ → Body J → Writer → Response J
  write status body w = record {
    status = status;
    headers = w.headers;
    cookies = w.cookies;
    body = body;
  }

  unfoldable pub write_json : ℕ → Body J → Writer → Response J
  write_json status body w =
      write status body (set_header (codes "Content-Type") (codes "application/json") w)

  unfoldable pub write_error : ℕ → Bytes → Bytes → Writer → Response J
  write_error status code message =
      write_json status (strings ((codes "error", code) ∷ (codes "message", message) ∷ []))
