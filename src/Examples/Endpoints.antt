-- ===== src/Examples/Endpoints.antt =====
-- Requests to the server at concrete inputs.
use flight_circle_search.Base.{
  ℕ, ◌≡◌, refl, ◌↔◌, false, none, some, [], ◌∷◌, codes, bytes_eq, nat_eq, ok, count, arith,
}
use flight_circle_search.Config.{Config}
use flight_circle_search.Http.Middleware.{Logged}
use flight_circle_search.Jobs.{SearchRequest}
use flight_circle_search.Http.{Site, Request, write_json, value}
use flight_circle_search.Api
use flight_circle_search.Api.{submitted, submit_handler, get_handler}
use flight_circle_search.Api.Statuses.{
  IsServed, fresh_answer, posted, submit_handler_202_iff, get_handler-submit_handler,
}
use flight_circle_search.Api.Server.{ServeMux, Draws, handler}
use flight_circle_search.Api.Entry.{IsAnswered, handler-IsAnswered}
use flight_circle_search.Examples.Data.{whole, source, service, request}
use flight_circle_search.Examples.Server.{Server, server, server-IsRedis}
use flight_circle_search.Examples.Submissions.{some_tuples, generated}
use flight_circle_search.Examples.Logins.{empty}
use flight_circle_search.Examples.Requests.{calls, blank, posting, with_session, site, signed_in}

-- An id is written as one byte; every body is the same request.
abbrev pub api : Api.Calls ℕ
api = record {
  decode_submit = λ body. ok request;
  parse_id = λ text. elim text [ [] ↦ none | b ∷ bs ↦ some b ];
  show_id = λ id. id ∷ [];
  submit_text = λ e. [];
}

abbrev asking : Request
asking = record (posting []) { path_value = λ name. 9 ∷ []; query = λ name. codes "results" }

submit_handler_202_iff_example :
    ((posted whole api service source 9 (posting []) blank (site empty)).0.status ≡ 202)
    ↔ IsServed whole api service source []
unfolding count
submit_handler_202_iff_example =
    submit_handler_202_iff whole api service source 9 (posting []) blank (site empty)
      (refl, refl, refl)

get_handler-submit_handler_example :
    ((posted whole api service source 9 (posting []) blank (site empty)).0
      ≡ write_json 202 (value (submitted (record { job_id = 9 ∷ []; total_pairs = 3 }))) blank)
    × ((get_handler whole api asking blank
          (posted whole api service source 9 (posting []) blank (site empty)).1).0
        ≡ fresh_answer whole api 9 7 request some_tuples asking blank)
unfolding count
get_handler-submit_handler_example =
    get_handler-submit_handler whole api service source 9 (posting []) asking blank blank
      (site empty) request some_tuples (refl, refl, refl) refl generated (omega arith) refl

-- A mux that takes every request for a submission.
abbrev pub mux : ServeMux
mux = record {
  select = λ patterns r. some (codes "POST /jobs", λ name. []);
  refuse = λ patterns r w. (404, w, []);
}

abbrev pub config : Config
config = record {
  database_url = codes "p";
  redis_url = codes "r";
  api_addr = codes ":8080";
  app_origin = codes "https://x";
  hubs = [];
  allowed_emails = [];
  cache_ttl_hours = 24;
  rate_limit_per_day = 5;
  resend_api_key = [];
  session_signing_key = codes "k";
  travelpayouts_api_key = [];
  e2e_test_mode = false;
}

abbrev pub draws : Draws
draws = record {
  random = ok (codes "t");
  now = 7;
  job_id = 9;
  request_id = codes "u";
  pool_ping = ok tt;
  redis_ping = ok tt;
}

abbrev pub quiet : Logged (Site Server (SearchRequest ℕ))
quiet = record { state = site signed_in; log = [] }

handler-IsAnswered_example :
    IsAnswered whole server api calls source config draws mux with_session quiet
      (handler whole server api calls source config draws mux with_session blank quiet)
handler-IsAnswered_example =
    handler-IsAnswered whole server api calls source config draws mux server-IsRedis
      (λ patterns r w name h o. refl) with_session blank quiet
