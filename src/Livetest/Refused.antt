-- ===== src/Livetest/Refused.antt =====
-- What the client meets: a server that asks for a session, and fares whose keys are the names of Go's
-- fields.
use flight_circle_search.Base.{
  ok, err, Option, false, Result, ◌==◌, ◌++◌, All, contains, not, ◌||◌, Bool-cases, inl, inr,
  nat_eq, length, codes, ◌≡◌, refl, none, some, [], Bytes, codes, bytes_eq, lookup, map, bytes_beq,
  List, ◌∷◌,
}
use flight_circle_search.Livetest.{
  request_of, date_range, ResultView, Json, fares_for, fares_in, collect, Calls, Flags, Event,
  submit_failed, submit, run, submit_job,
}
use flight_circle_search.Floats.{Floats}
use flight_circle_search.Config.{Config}
use flight_circle_search.Jobs.{SearchRequest}
use flight_circle_search.Jobs.Service.{AirportSource}
use flight_circle_search.Auth.Redis.{Redis}
use flight_circle_search.Http.{Request, Writer, Site, write, write_json, write_error}
use flight_circle_search.Http.Middleware.{
  Logged, require_auth, request_id, access_log, security_headers, cors,
}
use flight_circle_search.Http.Handlers
use flight_circle_search.Api
use flight_circle_search.Api.{Answer}
use flight_circle_search.Api.Server.{ServeMux, Draws, serve, routes, handler}

-- The request that `http.Post` makes: it has no cookie.
abbrev pub posted : Bytes → Request
posted body = record {
  method = codes "POST";
  path = codes "/jobs";
  cookie = λ name. none;
  query = λ name. [];
  path_value = λ name. [];
  body = body;
  session = none;
  request_id = none;
}

module _ (fl : Floats) (redis : Redis) (api : Api.Calls fl.Float) (auth : Handlers.Calls)
    (source : AirportSource fl.Float) (cfg : Config) (draws : Draws) (mux : ServeMux) where
  open fl use {Float}

  -- The mux takes the request for one to the endpoint of submissions.
  abbrev pub IsRouted : Request → Type 0
  IsRouted r =
      (path_value : Bytes → Bytes) × (mux.select
          (map (λ x. x.0) (routes fl redis api auth source cfg draws))
          (record r { request_id = some draws.request_id })
        ≡ some (codes "POST /jobs", path_value))

  unauthorized :
      (body : Bytes) (w : Writer) (s : Logged (Site redis.State (SearchRequest Float)))
      → IsRouted (posted body)
      → (handler fl redis api auth source cfg draws mux (posted body) w s).0.status ≡ 401
  unfolding handler request_id access_log security_headers cors serve routes require_auth
      write_error write_json write lookup bytes_beq
  unauthorized body w s (path_value, h) = rw (handler, serve, h) refl

  -- The client shows no session. So, if its request reaches the endpoint of submissions of a server in any state, and it gets the status of that server's answer, then it ends with the error that the submission failed with 401, whatever its flags are.
  pub run-unauthorized :
      (calls : Calls fl) (flags : Flags Float) (events : Bytes → List Event) (body text : Bytes)
      (w : Writer) (s : Logged (Site redis.State (SearchRequest Float)))
      → calls.marshal (request_of flags (date_range flags).0 (date_range flags).1) ≡ body
      → IsRouted (posted body)
      → calls.post (flags.api_url ++ codes "/jobs") (codes "application/json") body
        ≡ ok (record {
          status = (handler fl redis api auth source cfg draws mux (posted body) w s).0.status;
          body = text;
        })
      → run calls flags events ≡ some (err (submit (submit_failed 401 text)))
  unfolding run submit_job
  run-unauthorized calls flags events body text w s sent routed got =
      rw (run, submit_job, sent, got, unauthorized body w s routed) refl

-- The keys under which encoding/json writes the fields of `fareprovider.Fare`, which has no tags.
abbrev pub fare_keys : List Bytes
fare_keys = map codes (
    "Origin" ∷ "Destination" ∷ "OriginAirport" ∷ "DestinationAirport" ∷ "Airline" ∷ "FlightNumber"
    ∷ "DepartureAt" ∷ "Price" ∷ "Currency" ∷ "Duration" ∷ "Transfers" ∷ "Link" ∷ "Cached" ∷ [])

module _ {fl : Floats} (calls : Calls fl) where
  open fl use {Float}

  -- The stored fares of a result have no keys but these.
  abbrev pub IsStored : ResultView → Type 0
  IsStored r =
      (fs : List (Bytes → Option (Json Float)))
      → calls.unmarshal_fares r.fare ≡ ok fs
      → All (λ f. (key : Bytes) → contains key fare_keys ≡ false → f key ≡ none) fs

  none_for :
      (r : ResultView) (fs : List (Bytes → Option (Json Float)))
      → All (λ f. (key : Bytes) → contains key fare_keys ≡ false → f key ≡ none) fs
      → fares_for calls r fs ≡ []
  unfolding fares_for contains bytes_beq
  none_for r [] h = refl
  none_for r (f ∷ fs) (h, hs) = rw (h (codes "price") refl) (none_for r fs hs)

  none_in :
      (r : ResultView) (got : Result Bytes (List (Bytes → Option (Json Float))))
      → calls.unmarshal_fares r.fare ≡ got
      → IsStored r
      → fares_in calls r got ≡ []
  none_in r (err e) q h = refl
  none_in r (ok fs) q h = none_for r fs (h fs q)

  -- The fares that the workers store have the names of Go's fields as keys. Of results with such fares, however many they are, the client lists none: it looks for a price under another key.
  collect-none : (results : List ResultView) → All IsStored results → collect calls results ≡ []
  unfolding collect
  collect-none [] h = refl
  collect-none (r ∷ results) (h, hs) =
      elim (Bool-cases (not (r.status == codes "complete") || length r.fare == 0)) [
        | inl q ↦ rw q (collect-none results hs)
        | inr q ↦ rw (q, none_in r (calls.unmarshal_fares r.fare) refl h) (collect-none results hs)
      ]
