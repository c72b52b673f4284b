-- ===== src/Api/Statuses.antt =====
-- What the two endpoints of the jobs answer.
use flight_circle_search.Api.Views.{
  row_view, views, IsFresh, found_fresh, kept_fresh, got_job, listed_rows,
}
use flight_circle_search.Jobs.Submit.{
  submitted as accepted, submit_steps, submit_refused, submit_too_many, fresh_job,
}
use flight_circle_search.Http.{
  value, Request, Writer, Site, write, write_json, write_error, Response,
}
use flight_circle_search.Api.{
  submission, shown, submitted, ResultResponse, JobResponse, Answer, submit_handler, get_handler,
  submit_status, Calls, to_job_response, with_job,
}
use flight_circle_search.Jobs.Service.{
  too_many_pairs, invalid_input, load_airports, load_routes, enqueue_failed, resolve_origins,
  resolve_destinations, date_range, persist_job, fetch_result_ids, mark_running, AirportSource,
  Service, GeneratedPair, generate_tuples, submit, SubmitError,
}
use flight_circle_search.Floats.{Floats}
use flight_circle_search.Base.{
  ℕ, ◌≡◌, ◌≢◌, ◌↔◌, inl, inr, refl, sym, ap, ◌∙◌, ◌≤◌, Bool, true, false, none, some, List, [], map,
  Bytes, codes, ok, err, leb, leb→le, lt_of_leb, length, nat_eq, bytes_eq, ◌==◌, if◌then◌else◌,
  Bool-cases, Result-cases, arith,
}
use flight_circle_search.Jobs.{JobStatus, SearchRequest}

refused-not_202 : (e : SubmitError) → (submit_status e).0 ≢ 202
refused-not_202 (too_many_pairs n) = λ h. omega arith
refused-not_202 (invalid_input f) = λ h. omega arith
refused-not_202 (load_airports t) = λ h. omega arith
refused-not_202 (load_routes t) = λ h. omega arith
refused-not_202 (enqueue_failed t) = λ h. omega arith
refused-not_202 (resolve_origins t) = λ h. omega arith
refused-not_202 (resolve_destinations t) = λ h. omega arith
refused-not_202 (date_range t) = λ h. omega arith
refused-not_202 (persist_job t) = λ h. omega arith
refused-not_202 (fetch_result_ids t) = λ h. omega arith
refused-not_202 (mark_running t) = λ h. omega arith

bad_request-not_202 : ◌≢◌ {A = ℕ} 400 202
bad_request-not_202 h = omega arith

module _ (fl : Floats) (calls : Calls fl.Float) where
  open fl use {Float}
  open calls use {decode_submit, parse_id, show_id, submit_text}

  -- The request is read, its pairs are generated, and they are not too many.
  abbrev pub IsServed : Service → AirportSource Float → Bytes → Type 0
  IsServed svc source body =
      (req : SearchRequest Float) × (pairs : List GeneratedPair) × (decode_submit body ≡ ok req)
      × (generate_tuples fl source svc.hubs req ≡ ok pairs)
      × (length pairs ≤ svc.max_pairs)

  abbrev pub fresh_view : ℕ → ℕ → SearchRequest Float → ℕ → List ResultResponse → JobResponse Float
  fresh_view id now req total results = record {
    id = show_id id;
    status = codes "running";
    submitted_at = now;
    completed_at = none;
    total_pairs = total;
    completed_pairs = 0;
    failed_pairs = 0;
    error_summary = none;
    request = req;
    results = results;
  }

  -- What a GET shows of such a job.
  abbrev pub fresh_answer :
      ℕ → ℕ → SearchRequest Float → List GeneratedPair → Request → Writer → Response (Answer Float)
  fresh_answer id now req pairs r =
      let rows = if r.query (codes "include") == codes "results" then map row_view pairs else [] in
      write_json 200 (value (shown (fresh_view id now req (length pairs) rows)))

  module _ {S : Type 0} (svc : Service) (source : AirportSource Float) (fresh : ℕ) where
    abbrev pub posted :
        Request
        → Writer
        → Site S (SearchRequest Float)
        → Response (Answer Float) × Site S (SearchRequest Float)
    posted = submit_handler fl calls svc source fresh

    posted_ok :
        (r : Request) (w : Writer) (s : Site S (SearchRequest Float)) (req : SearchRequest Float)
        (pairs : List GeneratedPair)
        → IsFresh fresh s.jobs
        → decode_submit r.body ≡ ok req
        → generate_tuples fl source svc.hubs req ≡ ok pairs
        → length pairs ≤ svc.max_pairs
        → posted r w s ≡ (
          write_json 202
              (value (submitted (record { job_id = show_id fresh; total_pairs = length pairs })))
              w,
          record s { jobs = accepted fresh req pairs s.jobs },
        )
    unfolding submit_handler
    posted_ok r w s req pairs (f, a, b) d g room =
        rw (submit_handler, d)
          (ap (submission fl calls w s)
            (submit_steps fl svc source fresh req pairs s.jobs g room f a b))

    posted_failed :
        (r : Request) (w : Writer) (s : Site S (SearchRequest Float)) (req : SearchRequest Float)
        (e : SubmitError) (total : ℕ)
        → decode_submit r.body ≡ ok req
        → submit fl svc source fresh req s.jobs
          ≡ (record { id = 0; total = total; error = some e }, s.jobs)
        → (posted r w s).0.status ≡ (submit_status e).0
    unfolding submit_handler write_error write_json write
    posted_failed r w s req e total d h =
        rw (submit_handler, d) (ap (λ p. (submission fl calls w s p).0.status) h)

    undecoded :
        (r : Request) (w : Writer) (s : Site S (SearchRequest Float)) (text : Bytes)
        → decode_submit r.body ≡ err text
        → (posted r w s).0.status ≡ 400
    unfolding submit_handler write_error write_json write
    undecoded r w s text d = rw (submit_handler, d) refl

    IsServed-of_202 :
        (r : Request) (w : Writer) (s : Site S (SearchRequest Float)) (req : SearchRequest Float)
        → decode_submit r.body ≡ ok req
        → (posted r w s).0.status ≡ 202
        → IsServed svc source r.body
    IsServed-of_202 r w s req d h = elim (Result-cases (generate_tuples fl source svc.hubs req)) [
      | inr (e, g) ↦ absurd (
          refused-not_202 e (
            sym (posted_failed r w s req e 0 d (submit_refused fl svc source fresh req e s.jobs g))
            ∙ h))
      | inl (pairs, g) ↦ elim (Bool-cases (leb (length pairs) svc.max_pairs)) [
        | inl q ↦ (req, pairs, d, g, leb→le _ _ q)
        | inr q ↦ absurd (
            refused-not_202 (too_many_pairs (length pairs)) (
              sym (
                posted_failed r w s req _ (length pairs) d
                  (submit_too_many fl svc source fresh req pairs s.jobs g (lt_of_leb _ _ q)))
              ∙ h))
      ]
    ]

    with_rows :
        (req : SearchRequest Float) (pairs : List GeneratedPair) (r : Request) (w : Writer)
        (s : Site S (SearchRequest Float))
        → IsFresh fresh s.jobs
        → (b : Bool)
        → (with_job fl calls b fresh w
            (record s { jobs = accepted fresh req pairs s.jobs })
            (
              ok (record (fresh_job fresh req (length pairs) s.jobs.clock) {
                status = JobStatus.running;
              }),
              accepted fresh req pairs s.jobs,
            )).0
          ≡ write_json 200
              (value (
                shown (
                  fresh_view fresh s.jobs.clock req
                    (length pairs)
                    (if b then map row_view pairs else []))))
              w
    unfolding to_job_response
    with_rows req pairs r w s (f, a, b) false = refl
    with_rows req pairs r w s (f, a, b) true =
        rw
          (
            listed_rows fresh (accepted fresh req pairs s.jobs) f,
            kept_fresh fresh req pairs s.jobs (f, a, b),
            views fresh s.jobs.next_id pairs,
          )
          refl

    shown_fresh :
        (req : SearchRequest Float) (pairs : List GeneratedPair) (r : Request) (w : Writer)
        (s : Site S (SearchRequest Float))
        → IsFresh fresh s.jobs
        → parse_id (r.path_value (codes "id")) ≡ some fresh
        → (get_handler fl calls r w (record s { jobs = accepted fresh req pairs s.jobs })).0
          ≡ fresh_answer fresh s.jobs.clock req pairs r w
    unfolding get_handler
    shown_fresh req pairs r w s f p =
        rw (get_handler, p)
          (rw
            (got_job fresh _ (accepted fresh req pairs s.jobs) f.0
              (found_fresh fresh req pairs s.jobs f))
            (with_rows req pairs r w s f (r.query (codes "include") == codes "results")))

    -- With a store that answers and a UUID that is new, a submission is answered with 202 exactly if its body decodes, its pairs are generated, and they are not more than the service allows.
    pub submit_handler_202_iff :
        (r : Request) (w : Writer) (s : Site S (SearchRequest Float))
        → IsFresh fresh s.jobs
        → ((posted r w s).0.status ≡ 202) ↔ IsServed svc source r.body
    unfolding write_json write
    submit_handler_202_iff r w s f = (
      λ h. elim (Result-cases (decode_submit r.body)) [
        | inr (text, d) ↦ absurd (bad_request-not_202 (sym (undecoded r w s text d) ∙ h))
        | inl (req, d) ↦ IsServed-of_202 r w s req d h
      ],
      λ (req, pairs, d, g, room). ap (λ x. x.0.status) (posted_ok r w s req pairs f d g room),
    )

    -- With a store that answers and a UUID that is new, a submission whose body decodes, whose pairs are generated and are not more than the service allows, is answered with 202, the id and the number of its pairs; and a GET with that id is then answered with 200 and the job as running, with that number, no progress and the request that was submitted, and, if the results are asked for, one pending row for each pair in their order.
    pub get_handler-submit_handler :
        (r r' : Request) (w w' : Writer) (s : Site S (SearchRequest Float))
        (req : SearchRequest Float) (pairs : List GeneratedPair)
        → IsFresh fresh s.jobs
        → decode_submit r.body ≡ ok req
        → generate_tuples fl source svc.hubs req ≡ ok pairs
        → length pairs ≤ svc.max_pairs
        → parse_id (r'.path_value (codes "id")) ≡ some fresh
        → ((posted r w s).0
            ≡ write_json 202
                (value (submitted (record { job_id = show_id fresh; total_pairs = length pairs })))
                w)
          × ((get_handler fl calls r' w' (posted r w s).1).0
              ≡ fresh_answer fresh s.jobs.clock req pairs r' w')
    get_handler-submit_handler r r' w w' s req pairs f d g room p =
        let done = posted_ok r w s req pairs f d g room in
        (
          ap (λ x. x.0) done,
          ap (λ x. (get_handler fl calls r' w' x.1).0) done ∙ shown_fresh req pairs r' w' s f p,
        )
