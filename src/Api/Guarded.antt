-- ===== src/Api/Guarded.antt =====
-- What the routes of the server and the functions around them guarantee.
use flight_circle_search.Http.Middleware.{require_auth}
use flight_circle_search.Http.Guard.{Shows, require_auth-IsGuarded}
use flight_circle_search.Auth.Sessions.{SessionJson, Session}
use flight_circle_search.Auth.Redis.{Redis, IsRedis}
use flight_circle_search.Jobs.Repository.{list_results, get_job}
use flight_circle_search.Api
use flight_circle_search.Api.{
  submission, submit_handler, submit_status, with_job, get_handler, Answer, with_results,
}
use flight_circle_search.Jobs.Store.{job_not_found, failure, World, RepoError}
use flight_circle_search.Jobs.Service.{Submission, Service, AirportSource, submit}
use flight_circle_search.Jobs.{SearchRequest, SearchJob, SearchJobResult}
use flight_circle_search.Floats.{Floats}
use flight_circle_search.Http.Open.{
  content_headers, IsKept, write_json-IsKept, error-IsKept, IsOpen,
}
use flight_circle_search.Http.{Request, Writer, Site, Handler, write, Response}
use flight_circle_search.Api.Server.{ServeMux, serve, refused}
use flight_circle_search.Base.{
  ℕ, ◌≡◌, refl, sym, subst, ◌⊎◌, Bool, true, false, some, List, [], ◌∷◌, Bytes, bytes_eq, contains,
  codes, map, lookup, Result, ok, err, Bool-cases, Option-cases, Result-cases, inl, inr, nat_eq,
  ◌==◌, All,
}

-- The mux changes no header of a request that it refuses but those of the content, and sets X-Content-Type-Options to what it is in a writer that forbids sniffing.
abbrev pub KeepsHeaders : ServeMux → Type 0
KeepsHeaders mux =
    (patterns : List Bytes) (r : Request) (w : Writer) (name : Bytes)
    → contains name content_headers ≡ false
    → lookup (codes "X-Content-Type-Options") w.headers ≡ some (codes "nosniff")
    → lookup name (mux.refuse patterns r w).1.headers ≡ lookup name w.headers

module _ {S : Type 0} (fl : Floats) (calls : Api.Calls fl.Float) where
  open fl use {Float}

  submission-IsKept :
      (w : Writer) (s : Site S (SearchRequest Float)) (p : Submission × World (SearchRequest Float))
      → IsKept w (submission fl calls w s p).0
  submission-IsKept w s (sub, jobs) = elim (Option-cases sub.error) [
    | inl e ↦ rw e (write_json-IsKept 202 _ w)
    | inr (x, e) ↦ rw e (
        error-IsKept (Answer Float) (submit_status x).0 (submit_status x).1 (calls.submit_text x) w)
  ]

  pub submit_handler-IsKept :
      (svc : Service) (source : AirportSource Float) (fresh : ℕ) (r : Request) (w : Writer)
      (s : Site S (SearchRequest Float))
      → IsKept w (submit_handler fl calls svc source fresh r w s).0
  unfolding submit_handler
  submit_handler-IsKept svc source fresh r w s = elim (Result-cases (calls.decode_submit r.body)) [
    | inl (req, e) ↦
        rw (submit_handler, e) (submission-IsKept w s (submit fl svc source fresh req s.jobs))
    | inr (text, e) ↦ rw (submit_handler, e) (error-IsKept (Answer Float) 400 _ text w)
  ]

  with_results-IsKept :
      (job : SearchJob (SearchRequest Float)) (w : Writer) (s : Site S (SearchRequest Float))
      (p : Result RepoError (List SearchJobResult) × World (SearchRequest Float))
      → IsKept w (with_results fl calls job w s p).0
  with_results-IsKept job w s (ok rows, u) = write_json-IsKept 200 _ w
  with_results-IsKept job w s (err e, u) = error-IsKept (Answer Float) 500 _ _ w

  with_job-IsKept :
      (b : Bool) (id : ℕ) (w : Writer) (s : Site S (SearchRequest Float))
      (p : Result RepoError (SearchJob (SearchRequest Float)) × World (SearchRequest Float))
      → IsKept w (with_job fl calls b id w s p).0
  with_job-IsKept b id w s (err job_not_found, v) = error-IsKept (Answer Float) 404 _ _ w
  with_job-IsKept b id w s (err (failure text), v) = error-IsKept (Answer Float) 500 _ _ w
  with_job-IsKept false id w s (ok job, v) = write_json-IsKept 200 _ w
  with_job-IsKept true id w s (ok job, v) = with_results-IsKept job w s (list_results id v)

  pub get_handler-IsKept :
      (r : Request) (w : Writer) (s : Site S (SearchRequest Float))
      → IsKept w (get_handler fl calls r w s).0
  unfolding get_handler
  get_handler-IsKept r w s = elim (Option-cases (calls.parse_id (r.path_value (codes "id")))) [
    | inl e ↦ rw (get_handler, e) (error-IsKept (Answer Float) 400 _ _ w)
    | inr (id, e) ↦ rw (get_handler, e) (with_job-IsKept _ id w s (get_job id s.jobs))
  ]

-- A handler either leaves the jobs alone, or serves a request that shows a session; it keeps the headers.
abbrev pub IsPrivate :
    {R J : Type 0} (redis : Redis)
    → SessionJson
    → Request
    → Writer
    → Site redis.State R
    → Response J × Site redis.State R
    → Type 0
IsPrivate redis json r w s p =
    IsOpen w s p ⊎ (((it : Session) × Shows redis json r s.redis it) × IsKept w p.0)

pub record IsPrivateHandler {R J : Type 0} (redis : Redis) (json : SessionJson)
    (next : Handler (Site redis.State R) J) : Type 0 where
  pub at :
      (r : Request) (w : Writer) (s : Site redis.State R) → IsPrivate redis json r w s (next r w s)

module _ {R J : Type 0} (redis : Redis) (json : SessionJson) (good : IsRedis redis) where
  pub guarded-IsPrivate :
      (next : Handler (Site redis.State R) J)
      → ((r : Request) (w : Writer) (s : Site redis.State R) → IsKept w (next r w s).0)
      → IsPrivateHandler redis json (require_auth redis json next)
  guarded-IsPrivate next kept = record {
    at = λ r w s. elim (require_auth-IsGuarded redis json next good r w s) [
      | inl (it, shows, e) ↦ inr (
        (it, shows),
        subst (λ p. IsKept w p.0) (sym e) (kept (record r { session = some it }) w s),
      )
      | inr (status, sent, o) ↦ inl o
    ];
  }

module _ {R J : Type 0} (redis : Redis) (json : SessionJson) where
  pub open-IsPrivate :
      (next : Handler (Site redis.State R) J)
      → ((r : Request) (w : Writer) (s : Site redis.State R) → IsOpen w s (next r w s))
      → IsPrivateHandler redis json next
  open-IsPrivate next silent = record { at = λ r w s. inl (silent r w s) }

  looked_up-IsPrivate :
      (routes : List (Bytes × Handler (Site redis.State R) J)) (pattern : Bytes)
      (next : Handler (Site redis.State R) J)
      → All (λ x. IsPrivateHandler redis json x.1) routes
      → lookup pattern routes ≡ some next
      → IsPrivateHandler redis json next
  unfolding lookup
  looked_up-IsPrivate [] pattern next h e = cc
  looked_up-IsPrivate ((k, v) ∷ routes) pattern next (h, hs) e = elim (Bool-cases (pattern == k)) [
    | inl q ↦ subst (λ f. IsPrivateHandler redis json f) {x = v} {y = next} (cc (rw q at e)) h
    | inr q ↦ looked_up-IsPrivate routes pattern next hs (rw q at e)
  ]

  module _ (mux : ServeMux) (keeps : KeepsHeaders mux)
      (routes : List (Bytes × Handler (Site redis.State R) J)) where
    refused-IsOpen :
        (patterns : List Bytes) (r : Request) (w : Writer) (s : Site redis.State R)
        → IsOpen w s (refused {J = J} mux patterns r w s)
    unfolding write
    refused-IsOpen patterns r w s = record {
      same_jobs = refl;
      shows_none = refl;
      kept = keeps patterns r w;
    }

    pub serve-IsPrivate :
        All (λ x. IsPrivateHandler redis json x.1) routes
        → IsPrivateHandler redis json (serve mux routes)
    unfolding serve
    serve-IsPrivate h = record {
      at = λ r w s. elim (Option-cases (mux.select (map (λ x. x.0) routes) r)) [
        | inl e ↦ rw (serve, e) (inl (refused-IsOpen _ r w s))
        | inr ((pattern, path_value), e) ↦ elim (Option-cases (lookup pattern routes)) [
          | inl q ↦ rw (serve, e, q) (inl (refused-IsOpen _ r w s))
          | inr (next, q) ↦
              rw (serve, e, q)
                ((looked_up-IsPrivate routes pattern next h q).at
                  (record r { path_value = path_value }) w s)
        ]
      ];
    }
