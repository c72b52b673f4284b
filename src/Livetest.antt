-- ===== src/Livetest.antt =====
-- cmd/livetest/main.go: a client of the job API for manual tests. The flags are an argument. The HTTP
-- client, the encoder and the decoders of JSON, the conversion of a float64 and the function that sorts are
-- parameters; progress lines are left out.
pub mod Refused
use flight_circle_search.Base.{
  ℕ, ◌-◌, ◌<◌, Bool, true, false, not, ◌&&◌, ◌||◌, Option, none, some, List, [], ◌∷◌, ◌++◌, Bytes,
  codes, bytes_eq, nat_eq, ◌==◌, Result, ok, err, length, ltb, take, if◌then◌else◌, signed_lt,
}
use flight_circle_search.Floats.{Floats}
use flight_circle_search.Mail.{Reply}

pub record Flags (F : Type 0) : Type 0 where
  pub api_url : Bytes
  pub date : Bytes
  pub depart_from : Bytes
  pub depart_to : Bytes
  pub origin_lat : F
  pub origin_lng : F
  pub origin_r : F
  pub dest_lat : F
  pub dest_lng : F
  pub dest_r : F

pub record SubmitRequest (F : Type 0) : Type 0 where
  pub origin_lat : F
  pub origin_lng : F
  pub origin_r : F
  pub dest_lat : F
  pub dest_lng : F
  pub dest_r : F
  pub depart_from : Bytes
  pub depart_to : Bytes

pub record SubmitResponse : Type 0 where
  pub job_id : Bytes
  pub total_pairs : ℕ

-- `result`; a missing fare is empty.
pub record ResultView : Type 0 where
  pub origin : Bytes
  pub destination : Bytes
  pub departure_date : Bytes
  pub status : Bytes
  pub fare : Bytes
  pub error : Option Bytes

pub record JobView : Type 0 where
  pub id : Bytes
  pub status : Bytes
  pub total_pairs : ℕ
  pub completed_pairs : ℕ
  pub failed_pairs : ℕ
  pub error_summary : Option Bytes
  pub results : List ResultView

-- A value of `map[string]any` that is there.
pub data Json (F : Type 0) : Type 0 where
  text : Bytes → Json F
  number : F → Json F
  structure : Json F

pub record Fare : Type 0 where
  pub origin : Bytes
  pub dest : Bytes
  pub price : ℕ
  pub airline : Bytes
  pub flight : Bytes
  pub date : Bytes
  pub duration : ℕ

-- The order in which the fares are printed.
unfoldable pub is_cheaper : Fare → Fare → Bool
is_cheaper f g = signed_lt f.price g.price

-- `int` is the conversion of a float64; `post` has a URL, a content type and a body.
pub record Calls (fl : Floats) : Type 0 where
  pub marshal : SubmitRequest fl.Float → Bytes
  pub post : Bytes → Bytes → Bytes → Result Bytes Reply
  pub decode_response : Bytes → Result Bytes SubmitResponse
  pub decode_job : Bytes → Result Bytes JobView
  pub unmarshal_fares : Bytes → Result Bytes (List (Bytes → Option (Json fl.Float)))
  pub int : fl.Float → ℕ
  pub sort_slice : (Fare → Fare → Bool) → List Fare → List Fare

pub data SubmitError : Type 0 where
  post_failed decode_failed : Bytes → SubmitError
  submit_failed : ℕ → Bytes → SubmitError

pub data PollError : Type 0 where
  timed_out : Bytes → PollError
  job_not_found : PollError

pub data RunError : Type 0 where
  submit : SubmitError → RunError
  poll : PollError → RunError

-- What the loop of `pollJob` waits for: a tick, with the answer to the request that follows, or the end of the context.
pub data Event : Type 0 where
  ends : Bytes → Event
  tick : Result Bytes Reply → Event

module _ {F : Type 0} where
  unfoldable pub date_range : Flags F → Bytes × Bytes
  date_range flags =
      if length flags.date == 0
      then (flags.depart_from, flags.depart_to)
      else (flags.date, flags.date)

  -- `main` goes on only with these flags.
  unfoldable pub has_dates : Flags F → Bool
  has_dates flags =
      not (length flags.date == 0 && (length flags.depart_from == 0 || length flags.depart_to == 0))

  abbrev pub request_of : Flags F → Bytes → Bytes → SubmitRequest F
  request_of flags from to = record {
    origin_lat = flags.origin_lat;
    origin_lng = flags.origin_lng;
    origin_r = flags.origin_r;
    dest_lat = flags.dest_lat;
    dest_lng = flags.dest_lng;
    dest_r = flags.dest_r;
    depart_from = from;
    depart_to = to;
  }

  -- `str`
  abbrev pub str : Option (Json F) → Bytes
  str (some (text s)) = s
  str _ = []

module _ {fl : Floats} (calls : Calls fl) where
  open fl use {Float}

  abbrev pub accepted : Result Bytes SubmitResponse → Result SubmitError (Bytes × ℕ)
  accepted (err e) = err (decode_failed e)
  accepted (ok r) = ok (r.job_id, r.total_pairs)

  abbrev pub submitted : Result Bytes Reply → Result SubmitError (Bytes × ℕ)
  submitted (err e) = err (post_failed e)
  submitted (ok reply) =
      if reply.status == 202
      then accepted (calls.decode_response reply.body)
      else err (submit_failed reply.status reply.body)

  unfoldable pub submit_job : Flags Float → Bytes → Bytes → Result SubmitError (Bytes × ℕ)
  submit_job flags from to = submitted (
      calls.post (flags.api_url ++ codes "/jobs") (codes "application/json")
        (calls.marshal (request_of flags from to)))

  -- What one turn of the loop makes of an answer: none if the loop goes on.
  abbrev pub decoded : Result Bytes JobView → Option (Result PollError JobView)
  decoded (err e) = none
  decoded (ok job) =
      if job.status == codes "complete" || job.status == codes "failed" then some (ok job) else none

  abbrev pub answered : Result Bytes Reply → Option (Result PollError JobView)
  answered (err e) = none
  answered (ok reply) =
      if reply.status == 404
      then some (err job_not_found)
      else (if reply.status == 200 then decoded (calls.decode_job reply.body) else none)

  abbrev pub turn : Event → Option (Result PollError JobView)
  turn (ends e) = some (err (timed_out e))
  turn (tick answer) = answered answer

  abbrev pub first_of :
      Option (Result PollError JobView)
      → Option (Result PollError JobView)
      → Option (Result PollError JobView)
  first_of (some r) later = some r
  first_of none later = later

  -- `pollJob` on the events to come; none if it still waits after them.
  unfoldable pub poll_job : List Event → Option (Result PollError JobView)
  poll_job [] = none
  poll_job (e ∷ events) = first_of (turn e) (poll_job events)

  -- `intf`
  abbrev pub intf : Option (Json Float) → ℕ
  intf (some (number f)) = calls.int f
  intf _ = 0

  abbrev pub priced :
      ResultView → (Bytes → Option (Json Float)) → Option (Json Float) → List Fare → List Fare
  priced r f (some (number price)) rest =
      record {
        origin = r.origin;
        dest = r.destination;
        price = calls.int (fl.mul price (fl.of_ℕ 100));
        airline = str (f (codes "airline"));
        flight = str (f (codes "flight_number"));
        date = r.departure_date;
        duration = intf (f (codes "duration"));
      }
      ∷ rest
  priced r f _ rest = rest

  unfoldable pub fares_for : ResultView → List (Bytes → Option (Json Float)) → List Fare
  fares_for r [] = []
  fares_for r (f ∷ fs) = priced r f (f (codes "price")) (fares_for r fs)

  abbrev pub fares_in : ResultView → Result Bytes (List (Bytes → Option (Json Float))) → List Fare
  fares_in r (err e) = []
  fares_in r (ok fs) = fares_for r fs

  -- The loop over the results in `printResults`.
  unfoldable pub collect : List ResultView → List Fare
  unfolding fares_for
  collect [] = []
  collect (r ∷ results) =
      let rest = collect results in
      if not (r.status == codes "complete") || length r.fare == 0
      then rest
      else fares_in r (calls.unmarshal_fares r.fare) ++ rest

  -- What `printResults` prints of the fares: the first 20, and how many more there are.
  unfoldable pub print_results : JobView → List Fare × ℕ
  unfolding collect
  print_results job =
      let fares = calls.sort_slice is_cheaper (collect job.results) in
      (take 20 fares, length fares - 20)

  abbrev pub polled : Option (Result PollError JobView) → Option (Result RunError (List Fare × ℕ))
  polled none = none
  polled (some (err e)) = some (err (poll e))
  polled (some (ok job)) = some (ok (print_results job))

  abbrev pub following :
      (Bytes → List Event)
      → Result SubmitError (Bytes × ℕ)
      → Option (Result RunError (List Fare × ℕ))
  following events (err e) = some (err (submit e))
  following events (ok (job_id, total)) = polled (poll_job (events job_id))

  -- `run`; `events` is what the loop waits for when it asks for a job. None if it still waits after them.
  unfoldable pub run : Flags Float → (Bytes → List Event) → Option (Result RunError (List Fare × ℕ))
  unfolding date_range submit_job poll_job
  run flags events =
      let (from, to) = date_range flags in following events (submit_job flags from to)
