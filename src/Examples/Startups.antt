-- ===== src/Examples/Startups.antt =====
-- Starts of the processes, mails and the client at concrete inputs.
use flight_circle_search.Base.{arith, ℕ, ◌≡◌, ◌↔◌, refl, none, some, [], ◌∷◌, ◌++◌, codes, ok, err}
use flight_circle_search.Config.{Config}
use flight_circle_search.Startup.{Answers, new_server, idle}
use flight_circle_search.Startup.Runner.{new_runner}
use flight_circle_search.Startup.Release.{
  IsHeld, reaches_redis, runner_holds, start-IsHeld, new_runner_ignores,
}
use flight_circle_search.Api.Server.{handler}
use flight_circle_search.Mail
use flight_circle_search.Mail.{
  request_of, html_of, Outbox, HttpRequest, Reply, send_magic_link, new_sender,
}
use flight_circle_search.Mail.Delivery.{sender, IsAccepted, send_magic_link_iff}
use flight_circle_search.Livetest
use flight_circle_search.Livetest.{date_range, Flags, Event, run, submit_failed, submit}
use flight_circle_search.Livetest.Refused.{posted, run-unauthorized}
use flight_circle_search.Examples.Data.{whole, source}
use flight_circle_search.Examples.Slots.{slots}
use flight_circle_search.Examples.Server.{server}
use flight_circle_search.Examples.Requests.{calls, blank}
use flight_circle_search.Examples.Endpoints.{api, mux, config, draws, quiet}

-- A Redis that asks for the password that the URL has.
abbrev answers : Answers
answers = record {
  new_pool = λ url. ok tt;
  run_river_migrations = ok tt;
  parse_url = λ url. ok (record { addr = codes "h"; rest = url });
  ping = λ o. elim o.rest [ [] ↦ err (codes "NOAUTH") | c ∷ cs ↦ ok tt ];
  new_river_client = ok tt;
}

start-IsHeld_example :
    IsHeld (reaches_redis answers config) (new_server answers config idle)
    × IsHeld (runner_holds answers config) (new_runner slots answers config idle)
start-IsHeld_example = start-IsHeld slots answers config

new_runner_ignores_example :
    new_runner slots answers (record config { redis_url = codes "u1" }) idle
    ≡ new_runner slots answers (record config { redis_url = codes "u2" }) idle
new_runner_ignores_example =
    new_runner_ignores slots answers config (codes "u1") (codes "u2")
      (record { addr = codes "h"; rest = codes "u1" })
      (record { addr = codes "h"; rest = codes "u2" }) idle refl refl refl

abbrev mails : Mail.Calls
mails = record {
  marshal = λ m. ok (m.to ++ m.html);
  check_url = λ url. none;
  answer = λ r. ok (record { status = 200; body = [] });
}

abbrev with_key : Config
with_key = record config { resend_api_key = codes "k" }

abbrev no_mail : Outbox
no_mail = record { printed = []; posted = [] }

-- The mail was posted.
abbrev one_mail : Outbox
one_mail = record {
  printed = [];
  posted =
      request_of (sender mails with_key (codes "a") (codes "l")) (codes "a" ++ html_of (codes "l"))
      ∷ [];
}

send_magic_link_iff_example :
    (send_magic_link mails (new_sender with_key) (codes "a") (codes "l") no_mail
      ≡ (ok tt, one_mail))
    ↔ IsAccepted mails with_key (codes "a") (codes "l") no_mail one_mail
send_magic_link_iff_example =
    send_magic_link_iff mails with_key (codes "a") (codes "l") no_mail one_mail (omega arith)

abbrev flags : Flags ℕ
flags = record {
  api_url = codes "http://h";
  date = codes "2024-02-28";
  depart_from = [];
  depart_to = [];
  origin_lat = 10;
  origin_lng = 10;
  origin_r = 100;
  dest_lat = 40;
  dest_lng = 40;
  dest_r = 100;
}

-- A client against the server that the tests have.
abbrev client : Livetest.Calls whole
client = record {
  marshal = λ r. r.depart_from;
  post = λ url kind body. ok (record {
    status =
        (handler whole server api calls source config draws mux (posted body) blank quiet).0.status;
    body = codes "unauthorized";
  });
  decode_response = λ body. err [];
  decode_job = λ body. err [];
  unmarshal_fares = λ body. ok [];
  int = λ n. n;
  sort_slice = λ less fares. fares;
}

run-unauthorized_example :
    run client flags (λ id. []) ≡ some (err (submit (submit_failed 401 (codes "unauthorized"))))
unfolding date_range
run-unauthorized_example =
    run-unauthorized whole server api calls source config draws mux client flags (λ id. [])
      (codes "2024-02-28") (codes "unauthorized") blank quiet refl ((λ name. []), refl) refl
