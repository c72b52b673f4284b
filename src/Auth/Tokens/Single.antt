-- ===== src/Auth/Tokens/Single.antt =====
-- What a token is good for: once, for the address that it was issued for, and for 15 minutes.
use flight_circle_search.Base.{
  ℕ, ◌≡◌, refl, Bool-cases, inl, inr, ◌≢◌, ◌↔◌, true, false, ◌&&◌, Option, none, some, Bytes, ◌==◌,
  nat_eq, ltb, length, if◌then◌else◌, Result, ok, err, arith, nat_beq_iff,
}
use flight_circle_search.Auth.{not_found, rate_limited}
use flight_circle_search.Auth.Redis.{Redis, IsRedis}
use flight_circle_search.Auth.Tokens.{
  token_ttl, token_key, rate_key, store_token, stored, issue, counted, windowed, limited,
  consume_script, taken, consumed, consume, deleted, rate_limit_window,
}

module _ (redis : Redis) (good : IsRedis redis) (hex_sum : Bytes → Bytes) where
  open redis use {State, value, wait, incr, expire, set, get, del}

  abbrev key_of : Bytes → Bytes
  key_of token = token_key redis hex_sum token

  stored_ok :
      (token t : Bytes) (p : Result Bytes (Unit {0}) × State) (s' : State)
      → stored redis hex_sum token p ≡ (ok t, s')
      → (t ≡ token) × (p ≡ (ok tt, s'))
  stored_ok token t (ok _, s) s' h = (cc, cc)
  stored_ok token t (err e, s) s' h = ground arith

  deleted_ok :
      (v w : Bytes) (p : Result Bytes (Unit {0}) × State) (s' : State)
      → deleted redis hex_sum v p ≡ (ok (some w), s')
      → (w ≡ v) × (p ≡ (ok tt, s'))
  deleted_ok v w (ok _, s) s' h = (cc, cc)
  deleted_ok v w (err e, s) s' h = ground arith

  consumed_ok :
      (email : Bytes) (p : Result Bytes (Option Bytes) × State) (s' : State)
      → consumed redis hex_sum p ≡ (ok email, s')
      → p ≡ (ok (some email), s')
  consumed_ok email (ok none, s) s' h = ground arith
  consumed_ok email (err e, s) s' h = ground arith
  consumed_ok email (ok (some w), s) s' h = ground arith

  taken_ok :
      (key v : Bytes) (p : Result Bytes (Option Bytes) × State) (s' : State)
      → taken redis hex_sum key p ≡ (ok (some v), s')
      → (u : State) × (p ≡ (ok (some v), u)) × (del key u ≡ (ok tt, s'))
  taken_ok key v (ok none, s) s' h = ground arith
  taken_ok key v (err e, s) s' h = ground arith
  taken_ok key v (ok (some w), s) s' h =
      let (same, gone) = deleted_ok w v (del key s) s' h in (s, rw same refl, gone)

  pub consume_ok :
      (token email : Bytes) (s s' : State)
      → consume redis hex_sum token s ≡ (ok email, s')
      → (u : State) × (get (key_of token) s ≡ (ok (some email), u))
        × (del (key_of token) u ≡ (ok tt, s'))
  unfolding consume consume_script
  consume_ok token email s s' h =
      taken_ok (key_of token) email (get (key_of token) s) s'
        (consumed_ok email (consume_script redis hex_sum (key_of token) s) s' h)

  limited_set :
      (per_day count : ℕ) (email token : Bytes) (random : Result Bytes Bytes) (s s' : State)
      → limited redis hex_sum per_day email random count s ≡ (ok token, s')
      → (u : State) × (set (key_of token) email token_ttl u ≡ (ok tt, s'))
  unfolding store_token
  limited_set per_day count email token (err e) s s' h = ground arith
  limited_set per_day count email token (ok raw) s s' h =
      elim (Bool-cases (ltb 0 per_day && ltb per_day count)) [
        | inl q ↦ ground arith
        | inr q ↦
            let (same, put) =
              stored_ok raw token (set (key_of raw) email token_ttl s) s' (rw q at h) in
            (s, rw same put)
      ]

  windowed_set :
      (per_day count : ℕ) (email token : Bytes) (random : Result Bytes Bytes)
      (p : Result Bytes (Unit {0}) × State) (s' : State)
      → windowed redis hex_sum per_day email random count p ≡ (ok token, s')
      → (u : State) × (set (key_of token) email token_ttl u ≡ (ok tt, s'))
  windowed_set per_day count email token random (ok _, s) s' h =
      limited_set per_day count email token random s s' h
  windowed_set per_day count email token random (err e, s) s' h = ground arith

  counted_set :
      (per_day : ℕ) (email token : Bytes) (random : Result Bytes Bytes) (p : Result Bytes ℕ × State)
      (s' : State)
      → counted redis hex_sum per_day email random p ≡ (ok token, s')
      → (u : State) × (set (key_of token) email token_ttl u ≡ (ok tt, s'))
  counted_set per_day email token random (err e, s) s' h = ground arith
  counted_set per_day email token random (ok count, s) s' h = elim (Bool-cases (count == 1)) [
    | inl q ↦ windowed_set per_day count email token random _ s' (rw q at h)
    | inr q ↦ limited_set per_day count email token random s s' (rw q at h)
  ]

  set_of_issue :
      (per_day : ℕ) (email token : Bytes) (random : Result Bytes Bytes) (s s' : State)
      → issue redis hex_sum per_day email random s ≡ (ok token, s')
      → (u : State) × (set (key_of token) email token_ttl u ≡ (ok tt, s'))
  unfolding issue
  set_of_issue per_day email token random s s' h =
      counted_set per_day email token random (incr (rate_key email) s) s' h

  -- If the commands of the consumption succeed, a token that was issued for an address yields that address while less than 15 minutes have passed, and is not found from then on.
  pub consume-issue :
      (per_day : ℕ) (email token : Bytes) (random : Result Bytes Bytes) (d : ℕ) (s s' u t : State)
      (v : Option Bytes)
      → issue redis hex_sum per_day email random s ≡ (ok token, s')
      → (length email == 0) ≡ false
      → get (key_of token) (wait d s') ≡ (ok v, u)
      → del (key_of token) u ≡ (ok tt, t)
      → (consume redis hex_sum token (wait d s')).0
        ≡ (if ltb d token_ttl then ok email else err not_found)
  unfolding consume consume_script
  consume-issue per_day email token random d s s' u t v h ne g e =
      let (w, put) = set_of_issue per_day email token random s s' h in
      let (seen, _) = good.get_value (key_of token) (wait d s') u v g in
      let left = good.set_value (key_of token) email token_ttl d w s' put in ground arith

module _ (redis : Redis) (hex_sum : Bytes → Bytes) where
  open redis use {State, incr, expire, set}

  stored_unlimited :
      (token : Bytes) (p : Result Bytes (Unit {0}) × State)
      → (stored redis hex_sum token p).0 ≢ err rate_limited
  stored_unlimited token (ok _, s) h = ground arith
  stored_unlimited token (err e, s) h = ground arith

  store_token_unlimited :
      (email : Bytes) (random : Result Bytes Bytes) (s : State)
      → (store_token redis hex_sum email random s).0 ≢ err rate_limited
  unfolding store_token
  store_token_unlimited email (err e) s h = ground arith
  store_token_unlimited email (ok token) s h =
      stored_unlimited token (set (token_key redis hex_sum token) email token_ttl s) h

  limited_iff :
      (per_day count : ℕ) (email : Bytes) (random : Result Bytes Bytes) (s : State)
      → ((limited redis hex_sum per_day email random count s).0 ≡ err rate_limited)
        ↔ ((ltb 0 per_day && ltb per_day count) ≡ true)
  limited_iff per_day count email random s =
      elim (Bool-cases (ltb 0 per_day && ltb per_day count)) [
        | inl q ↦ rw q (λ h. refl, λ h. refl)
        | inr q ↦ rw q (λ h. absurd (store_token_unlimited email random s h), λ h. ground arith)
      ]

  -- A first request is never over the limit.
  windowed_iff :
      (per_day : ℕ) (email : Bytes) (random : Result Bytes Bytes)
      (p : Result Bytes (Unit {0}) × State)
      → ((windowed redis hex_sum per_day email random 1 p).0 ≡ err rate_limited)
        ↔ ((ltb 0 per_day && ltb per_day 1) ≡ true)
  windowed_iff per_day email random (ok _, s) = limited_iff per_day 1 email random s
  windowed_iff per_day email random (err e, s) = ground arith

  -- If the counter answers, a request for a link is refused for its rate exactly if there is a limit and the counter is above it.
  pub issue_limited :
      (per_day n : ℕ) (email : Bytes) (random : Result Bytes Bytes) (s u : State)
      → incr (rate_key email) s ≡ (ok n, u)
      → ((issue redis hex_sum per_day email random s).0 ≡ err rate_limited)
        ↔ ((ltb 0 per_day && ltb per_day n) ≡ true)
  unfolding issue
  issue_limited per_day n email random s u h = elim (Bool-cases (n == 1)) [
    | inl q ↦
        rw (h, q, (nat_beq_iff n 1).0 q)
          (windowed_iff per_day email random (expire (rate_key email) rate_limit_window u))
    | inr q ↦ rw (h, q) (limited_iff per_day n email random u)
  ]
