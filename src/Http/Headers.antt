-- ===== src/Http/Headers.antt =====
-- The headers that the functions around the routes set.
use flight_circle_search.Base.{
  ◌≡◌, refl, ◌∙◌, false, some, List, [], ◌∷◌, Bytes, codes, bytes_eq, bytes_beq, nat_eq, contains,
  map, lookup, insert, lookup-insert, beq_refl, has_prefix, Bool-cases, inl, inr, arith, ◌++◌, true,
}
use flight_circle_search.Http.{Writer, set_header}
use flight_circle_search.Http.Middleware.{secured, allowing}

abbrev set_all : List (Bytes × Bytes) → List (Bytes × Bytes) → List (Bytes × Bytes)
set_all [] m = m
set_all ((k, v) ∷ xs) m = insert k v (set_all xs m)

others :
    (a : Bytes) (xs m : List (Bytes × Bytes))
    → contains a (map (λ x. x.0) xs) ≡ false
    → lookup a (set_all xs m) ≡ lookup a m
unfolding contains
others a [] m h = refl
others a ((k, v) ∷ xs) m h = ground (arith, lookup-insert a k v (set_all xs m), others a xs m)

-- A header that stands under others.
under :
    (a v : Bytes) (xs m : List (Bytes × Bytes))
    → contains a (map (λ x. x.0) xs) ≡ false
    → lookup a (set_all xs (insert a v m)) ≡ some v
under a v xs m h = others a xs (insert a v m) h ∙ lookup-insert a a v m ∙ rw (beq_refl a) refl

module _ (origin : Bytes) where
  abbrev cors_tail : List (Bytes × Bytes)
  cors_tail =
      (codes "Vary", codes "Origin")
      ∷ (codes "Access-Control-Allow-Headers", codes "Content-Type")
      ∷ (codes "Access-Control-Allow-Methods", codes "GET, POST, OPTIONS")
      ∷ (codes "Access-Control-Allow-Credentials", codes "true")
      ∷ []

  abbrev frame_tail : List (Bytes × Bytes) → List (Bytes × Bytes)
  frame_tail sts =
      cors_tail
      ++ (codes "Access-Control-Allow-Origin", origin) ∷ sts
      ++ (codes "Referrer-Policy", codes "strict-origin-when-cross-origin") ∷ []

  abbrev sts : List (Bytes × Bytes)
  sts = (codes "Strict-Transport-Security", codes "max-age=63072000; includeSubDomains") ∷ []

  abbrev all_tail : List (Bytes × Bytes) → List (Bytes × Bytes)
  all_tail sts =
      frame_tail sts
      ++ (codes "X-Frame-Options", codes "DENY")
        ∷ (codes "X-Content-Type-Options", codes "nosniff")
        ∷ []

  module _ (id : Bytes) (w : Writer) where
    abbrev pub outer : Writer
    outer = allowing origin (secured origin (set_header (codes "X-Request-ID") id w))

    pub outer_origin : lookup (codes "Access-Control-Allow-Origin") outer.headers ≡ some origin
    unfolding contains bytes_beq
    outer_origin =
        under _ origin cors_tail (secured origin (set_header (codes "X-Request-ID") id w)).headers
          refl

    pub outer_frame : lookup (codes "X-Frame-Options") outer.headers ≡ some (codes "DENY")
    unfolding contains bytes_beq
    outer_frame =
        let m =
          insert (codes "X-Content-Type-Options") (codes "nosniff")
            (insert (codes "X-Request-ID") id w.headers) in
        elim (Bool-cases (has_prefix origin (codes "https://"))) [
          | inl q ↦ rw q (under _ (codes "DENY") (frame_tail sts) m refl)
          | inr q ↦ rw q (under _ (codes "DENY") (frame_tail []) m refl)
        ]

    pub outer_id : lookup (codes "X-Request-ID") outer.headers ≡ some id
    unfolding contains bytes_beq
    outer_id = elim (Bool-cases (has_prefix origin (codes "https://"))) [
      | inl q ↦ rw q (under _ id (all_tail sts) w.headers refl)
      | inr q ↦ rw q (under _ id (all_tail []) w.headers refl)
    ]

    pub outer_sniff : lookup (codes "X-Content-Type-Options") outer.headers ≡ some (codes "nosniff")
    unfolding contains bytes_beq
    outer_sniff =
        let m = insert (codes "X-Request-ID") id w.headers in
        elim (Bool-cases (has_prefix origin (codes "https://"))) [
          | inl q ↦ rw q (
              under _ (codes "nosniff")
                (frame_tail sts ++ (codes "X-Frame-Options", codes "DENY") ∷ []) m refl)
          | inr q ↦ rw q (
              under _ (codes "nosniff")
                (frame_tail [] ++ (codes "X-Frame-Options", codes "DENY") ∷ []) m refl)
        ]

    abbrev framed : List (Bytes × Bytes)
    framed = insert (codes "X-Frame-Options") (codes "DENY") (
        insert (codes "X-Content-Type-Options") (codes "nosniff")
          (insert (codes "X-Request-ID") id w.headers))

    abbrev referred : List (Bytes × Bytes)
    referred = insert (codes "Referrer-Policy") (codes "strict-origin-when-cross-origin") framed

    pub outer_referrer :
        lookup (codes "Referrer-Policy") outer.headers
        ≡ some (codes "strict-origin-when-cross-origin")
    unfolding contains bytes_beq
    outer_referrer = elim (Bool-cases (has_prefix origin (codes "https://"))) [
      | inl q ↦ rw q (
          under _ (codes "strict-origin-when-cross-origin")
            (cors_tail ++ (codes "Access-Control-Allow-Origin", origin) ∷ sts) framed refl)
      | inr q ↦ rw q (
          under _ (codes "strict-origin-when-cross-origin")
            (cors_tail ++ (codes "Access-Control-Allow-Origin", origin) ∷ []) framed refl)
    ]

    -- Only with a secure origin.
    pub outer_transport :
        has_prefix origin (codes "https://") ≡ true
        → lookup (codes "Strict-Transport-Security") outer.headers
          ≡ some (codes "max-age=63072000; includeSubDomains")
    unfolding contains bytes_beq
    outer_transport q = rw q (
        under _ (codes "max-age=63072000; includeSubDomains")
          (cors_tail ++ (codes "Access-Control-Allow-Origin", origin) ∷ []) referred refl)

    abbrev allowed : List (Bytes × Bytes)
    allowed =
        insert (codes "Access-Control-Allow-Origin") origin
          (secured origin (set_header (codes "X-Request-ID") id w)).headers

    pub outer_credentials :
        lookup (codes "Access-Control-Allow-Credentials") outer.headers ≡ some (codes "true")
    unfolding contains bytes_beq
    outer_credentials =
        under _ (codes "true")
          ((codes "Vary", codes "Origin")
            ∷ (codes "Access-Control-Allow-Headers", codes "Content-Type")
            ∷ (codes "Access-Control-Allow-Methods", codes "GET, POST, OPTIONS")
            ∷ [])
          allowed refl

    abbrev credited : List (Bytes × Bytes)
    credited = insert (codes "Access-Control-Allow-Credentials") (codes "true") allowed

    pub outer_methods :
        lookup (codes "Access-Control-Allow-Methods") outer.headers
        ≡ some (codes "GET, POST, OPTIONS")
    unfolding contains bytes_beq
    outer_methods =
        under _ (codes "GET, POST, OPTIONS")
          ((codes "Vary", codes "Origin")
            ∷ (codes "Access-Control-Allow-Headers", codes "Content-Type")
            ∷ [])
          credited refl

    abbrev methodical : List (Bytes × Bytes)
    methodical = insert (codes "Access-Control-Allow-Methods") (codes "GET, POST, OPTIONS") credited

    pub outer_headers :
        lookup (codes "Access-Control-Allow-Headers") outer.headers ≡ some (codes "Content-Type")
    unfolding contains bytes_beq
    outer_headers =
        under _ (codes "Content-Type") ((codes "Vary", codes "Origin") ∷ []) methodical refl

    pub outer_vary : lookup (codes "Vary") outer.headers ≡ some (codes "Origin")
    unfolding contains
    outer_vary =
        under _ (codes "Origin") []
          (insert (codes "Access-Control-Allow-Headers") (codes "Content-Type") methodical) refl
