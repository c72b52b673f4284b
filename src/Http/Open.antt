-- ===== src/Http/Open.antt =====
-- What an answer leaves alone: the job engine, and the headers that were set around the handler.
use flight_circle_search.Base.{
  contains, [], ◌∷◌, ℕ, ◌≡◌, refl, ap, ◌∙◌, Bool, true, false, List, Bytes, codes, bytes_eq, lookup,
  lookup-insert, ◌==◌, arith, some,
}
use flight_circle_search.Http.{
  Response, Writer, Site, Body, strings, value, write, write_json, write_error,
}

-- The headers that a handler, or the mux for a request that it refuses, sets itself.
abbrev pub content_headers : List Bytes
content_headers =
    codes "Content-Type" ∷ codes "Content-Length" ∷ codes "Allow" ∷ codes "Location" ∷ []

other_name :
    (name : Bytes) → contains name content_headers ≡ false → (name == codes "Content-Type") ≡ false
unfolding contains
other_name name h = ground arith

module _ {J : Type 0} where
  abbrev pub is_value : Body J → Bool
  is_value (value j) = true
  is_value _ = false

  -- The headers of a writer that forbids sniffing stand in the answer, but for those.
  abbrev pub IsKept : Writer → Response J → Type 0
  IsKept w p =
      (name : Bytes)
      → contains name content_headers ≡ false
      → lookup (codes "X-Content-Type-Options") w.headers ≡ some (codes "nosniff")
      → lookup name p.headers ≡ lookup name w.headers

  pub write_json-IsKept :
      (status : ℕ) (body : Body J) (w : Writer) → IsKept w (write_json status body w)
  unfolding write_json write
  write_json-IsKept status body w name h o =
      lookup-insert name (codes "Content-Type") (codes "application/json") w.headers
      ∙ rw (other_name name h) refl

-- The answer shows neither a job nor a submission, and leaves the job engine and the headers as they were.
pub record IsOpen {J S R : Type 0} (w : Writer) (s : Site S R) (p : Response J × Site S R)
    : Type 0 where
  pub same_jobs : p.1.jobs ≡ s.jobs
  pub shows_none : is_value p.0.body ≡ false
  pub kept : IsKept w p.0

module _ {J S R : Type 0} (w : Writer) (s t : Site S R) where
  pub write-IsOpen :
      (status : ℕ) (v : Writer) (body : Body J)
      → t.jobs ≡ s.jobs
      → is_value body ≡ false
      → v.headers ≡ w.headers
      → IsOpen w s (write status body v, t)
  unfolding write
  write-IsOpen status v body e b h = record {
    same_jobs = e;
    shows_none = b;
    kept = λ name n o. ap (lookup name) h;
  }

  pub strings-IsOpen :
      (status : ℕ) (v : Writer) (xs : List (Bytes × Bytes))
      → t.jobs ≡ s.jobs
      → v.headers ≡ w.headers
      → IsOpen w s (write_json {J = J} status (strings xs) v, t)
  unfolding write_json write
  strings-IsOpen status v xs e h = record {
    same_jobs = e;
    shows_none = refl;
    kept = λ name n o.
        write_json-IsKept {J = J} status (strings xs) v name n
          (ap (lookup (codes "X-Content-Type-Options")) h ∙ o)
        ∙ ap (lookup name) h;
  }

  pub error-IsOpen :
      (status : ℕ) (code text : Bytes)
      → t.jobs ≡ s.jobs
      → IsOpen w s (write_error {J = J} status code text w, t)
  unfolding write_error
  error-IsOpen status code text e = strings-IsOpen status w _ e refl

module _ {J S R : Type 0} {w : Writer} {s t : Site S R} {p : Response J × Site S R} where
  pub IsOpen-from : t.jobs ≡ s.jobs → IsOpen w t p → IsOpen w s p
  IsOpen-from e o = record { same_jobs = o.same_jobs ∙ e; shows_none = o.shows_none; kept = o.kept }

module _ (J : Type 0) where
  pub error-IsKept :
      (status : ℕ) (code text : Bytes) (w : Writer)
      → IsKept w (write_error {J = J} status code text w)
  unfolding write_error
  error-IsKept status code text w = write_json-IsKept {J = J} status (strings _) w
