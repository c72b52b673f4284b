-- ===== src/Http/Links.antt =====
-- To whom links are sent, and what the answer gives away.
use flight_circle_search.Auth.Tokens.Single.{issue_limited}
use flight_circle_search.Auth.Tokens.{rate_key, issue}
use flight_circle_search.Base.{
  ◌≡◌, refl, ◌⊎◌, inl, inr, true, some, [], ◌∷◌, ◌++◌, Bytes, Result, ok, err, Bool-cases,
  Option-cases, Result-cases, nat_eq, sym, subst, ap, ℕ, false, ltb, ◌&&◌, codes, contains→mem,
  List, Memᴰ, arith, bytes_eq,
}
use flight_circle_search.Auth.{AuthError, not_found, rate_limited, failure}
use flight_circle_search.Auth.Redis.{Redis}
use flight_circle_search.Http.{Request, Response, Writer, Site, write, write_json, write_error}
use flight_circle_search.Http.Handlers.{
  Calls, AuthHandlers, is_allowed, issued_for, sending, linked, with_address, decoded,
  request_magic_link, permitted, parsed,
}

-- The request names an address, as far as the decoder and the parser read one.
abbrev pub Names : Calls → Request → Bytes → Type 0
Names calls r address =
    (email : Bytes) × (calls.decode_email r.body ≡ ok email)
    × (calls.parse_address email ≡ some address)

module _ (calls : Calls) (h : AuthHandlers) where
  -- The allowlist is empty, or has the address in lower case.
  abbrev pub IsListed : Bytes → Type 0
  IsListed address = (h.allowed_emails ≡ []) ⊎ Memᴰ (calls.to_lower address) h.allowed_emails

  is_allowed-IsListed :
      (address : Bytes) (emails : List Bytes)
      → h.allowed_emails ≡ emails
      → is_allowed calls.to_lower h address ≡ true
      → IsListed address
  unfolding is_allowed
  is_allowed-IsListed address [] e y = inl e
  is_allowed-IsListed address (x ∷ emails) e y =
      inr (contains→mem (calls.to_lower address) h.allowed_emails (ground (arith, e, y)))

module _ {R : Type 0} (J : Type 0) (redis : Redis) (calls : Calls) (h : AuthHandlers) where
  -- What holds of the answers to a bad body, and of the rest for every address that the request names, holds of both issuers.
  pub with_address_rule :
      (P : Response J × Site redis.State R → Type 0)
      (next : Bytes → Writer → Site redis.State R → Response J × Site redis.State R) (r : Request)
      (w : Writer) (s : Site redis.State R)
      → ((code text : Bytes) → P (write_error 400 code text w, s))
      → ((address : Bytes) → Names calls r address → P (next address w s))
      → P (with_address redis calls h next r w s)
  with_address_rule P next r w s bad good = elim (Result-cases (calls.decode_email r.body)) [
    | inr (e, d) ↦ subst (λ x. P (decoded redis calls h next w s x)) (sym d) (bad _ _)
    | inl (email, d) ↦
        subst (λ x. P (decoded redis calls h next w s x)) (sym d)
          (elim (Option-cases (calls.parse_address email)) [
            | inl p ↦ subst (λ x. P (parsed redis calls h next w s x)) (sym p) (bad _ _)
            | inr (address, p) ↦
                subst (λ x. P (parsed redis calls h next w s x)) (sym p)
                  (good address (email, d, p))
          ])
  ]

  module _ (random : Result Bytes Bytes) where
    -- One link was sent, for a token that was issued for the address, and the address is listed.
    abbrev pub IsSent : Bytes → Site redis.State R → Response J × Site redis.State R → Type 0
    IsSent address s p =
        (token : Bytes) × IsListed calls h address
        × ((issue redis calls.hex_sum h.rate_limit_per_day address random s.redis).0 ≡ ok token)
        × (p.1.sent
            ≡ s.sent
              ++ (
                address,
                h.app_origin ++ (codes "/auth/callback?token=" ++ calls.query_escape token),
              )
                ∷ [])
        × (p.0.status ≡ 202)

    -- No link was sent, or one, to the address that the request names.
    abbrev pub IsSending : Request → Site redis.State R → Response J × Site redis.State R → Type 0
    IsSending r s p =
        (p.1.sent ≡ s.sent) ⊎ ((address : Bytes) × Names calls r address × IsSent address s p)

    sending_cases :
        (r : Request) (address : Bytes) (w : Writer) (s : Site redis.State R)
        → Names calls r address
        → is_allowed calls.to_lower h address ≡ true
        → (found : Result AuthError Bytes) (after : redis.State)
        → issued_for redis calls h address random s.redis ≡ (found, after)
        → IsSending r s (sending redis calls h address w (record s { redis = after }) found)
    unfolding write_json write
    sending_cases r address w s n y (ok token) after e = inr (
      address,
      n,
      (
        token,
        is_allowed-IsListed calls h address h.allowed_emails refl y,
        ap (λ x. x.0) e,
        refl,
        refl,
      ),
    )
    sending_cases r address w s n y (err not_found) after e = inl refl
    sending_cases r address w s n y (err rate_limited) after e = inl refl
    sending_cases r address w s n y (err (failure text)) after e = inl refl

    linked_cases :
        (r : Request) (address : Bytes) (w : Writer) (s : Site redis.State R)
        → Names calls r address
        → IsSending r s (linked redis calls h address random w s)
    linked_cases r address w s n = elim (Bool-cases (is_allowed calls.to_lower h address)) [
      | inr q ↦
          subst (λ b. IsSending r s (permitted redis calls h address random w s b)) (sym q)
            (inl refl)
      | inl q ↦
          subst (λ b. IsSending r s (permitted redis calls h address random w s b)) (sym q)
            (sending_cases r address w s n q _ _ refl)
    ]

    -- A request for a link sends no link, or a single one: to the address that the request names, which the allowlist has in lower case if it is not empty, with the URL of the callback and a token that was issued for it, and then it answers with 202.
    pub request_magic_link-IsSending :
        (r : Request) (w : Writer) (s : Site redis.State R)
        → IsSending r s (request_magic_link redis calls h random r w s)
    unfolding request_magic_link write_error
    request_magic_link-IsSending r w s =
        with_address_rule (IsSending r s) (λ address. linked redis calls h address random) r w s
          (λ code text. inl refl) (λ address n. linked_cases r address w s n)

module _ {R : Type 0} (J : Type 0) (redis : Redis) (calls : Calls) (h : AuthHandlers)
    (random : Result Bytes Bytes) where
  refused_when_limited :
      (address : Bytes) (w : Writer) (s : Site redis.State R) (found : Result AuthError Bytes)
      → found ≡ err rate_limited
      → (sending {J = J} redis calls h address w s found).0.status ≡ 429
  unfolding write_error write_json write
  refused_when_limited address w s found e =
      ap (λ x. (sending {J = J} redis calls h address w s x).0.status) e

  -- The answer tells whether an address may have links, once as many were asked for as the limit allows: an address that may have them is then answered with 429, and one that may not with 202.
  pub request_magic_link_reveals :
      (r r' : Request) (address other : Bytes) (n : ℕ) (w : Writer) (s : Site redis.State R)
      (u : redis.State)
      → Names calls r address
      → Names calls r' other
      → is_allowed calls.to_lower h address ≡ true
      → is_allowed calls.to_lower h other ≡ false
      → redis.incr (rate_key address) s.redis ≡ (ok n, u)
      → (ltb 0 h.rate_limit_per_day && ltb h.rate_limit_per_day n) ≡ true
      → ((request_magic_link {J = J} redis calls h random r w s).0.status ≡ 429)
        × ((request_magic_link {J = J} redis calls h random r' w s).0.status ≡ 202)
  unfolding request_magic_link write_json write
  request_magic_link_reveals r r' address other n w s u (e, d, p) (e', d', p') y out i l = (
    rw (request_magic_link, d, p, y)
        (refused_when_limited address w _ _ (
          (issue_limited redis calls.hex_sum h.rate_limit_per_day n address random s.redis u i).1
            l)),
    rw (request_magic_link, d', p', out) refl,
  )
