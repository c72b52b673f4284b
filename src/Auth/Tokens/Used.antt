-- ===== src/Auth/Tokens/Used.antt =====
-- A token that was used, whatever happens in Redis after that.
use flight_circle_search.Base.{
  ℕ, ◌≡◌, ◌≢◌, refl, ap, ◌∙◌, Option, none, some, Bytes, Result, ok, err, arith, nat_eq,
}
use flight_circle_search.Auth.Redis.{Redis, IsRedis, KeepsGone}
use flight_circle_search.Auth.Tokens.{token_key, consume, consume_script, consumed, taken, deleted}
use flight_circle_search.Auth.Tokens.Single.{consume_ok}

module _ (redis : Redis) (hex_sum : Bytes → Bytes) where
  open redis use {State, value, wait, incr, expire, set, get, del}

  -- What may happen in Redis after a state: time passes, tokens are consumed, and any commands are run but those that write the key.
  pub data Later (key : Bytes) (s : State) : State → Type 0 where
    here : Later key s s
    waits : {t : State} (d : ℕ) → Later key s t → Later key s (wait d t)
    increments : {t : State} (k : Bytes) → k ≢ key → Later key s t → Later key s (incr k t).1
    expires : {t : State} (k : Bytes) (ttl : ℕ) → Later key s t → Later key s (expire k ttl t).1
    writes :
        {t : State} (k bytes : Bytes) (ttl : ℕ)
        → k ≢ key
        → Later key s t
        → Later key s (set k bytes ttl t).1
    reads : {t : State} (k : Bytes) → Later key s t → Later key s (get k t).1
    deletes : {t : State} (k : Bytes) → Later key s t → Later key s (del k t).1
    consumes :
        {t : State} (token : Bytes) → Later key s t → Later key s (consume redis hex_sum token t).1

  consumed_state : (p : Result Bytes (Option Bytes) × State) → (consumed redis hex_sum p).1 ≡ p.1
  consumed_state (ok none, s) = refl
  consumed_state (err e, s) = refl
  consumed_state (ok (some email), s) = ground arith

  deleted_state :
      (v : Bytes) (p : Result Bytes (Unit {0}) × State) → (deleted redis hex_sum v p).1 ≡ p.1
  deleted_state v (ok _, s) = refl
  deleted_state v (err e, s) = refl

  module _ (keeps : KeepsGone redis) where
    taken_gone :
        (key k : Bytes) (p : Result Bytes (Option Bytes) × State)
        → value key p.1 ≡ none
        → value key (taken redis hex_sum k p).1 ≡ none
    taken_gone key k (ok none, s) h = h
    taken_gone key k (err e, s) h = h
    taken_gone key k (ok (some v), s) h =
        ap (value key) (deleted_state v (del k s)) ∙ keeps.del_others key k s h

    consume_gone :
        (key token : Bytes) (s : State)
        → value key s ≡ none
        → value key (consume redis hex_sum token s).1 ≡ none
    unfolding consume consume_script
    consume_gone key token s h =
        let k = token_key redis hex_sum token in
        ap (value key) (consumed_state (taken redis hex_sum k (get k s)))
        ∙ taken_gone key k (get k s) (keeps.get_gone key k s h)

    still_gone :
        (key : Bytes) {s t : State} → Later key s t → value key s ≡ none → value key t ≡ none
    still_gone key here h = h
    still_gone key (waits {t} d l) h = keeps.wait_gone key d t (still_gone key l h)
    still_gone key (increments {t} k n l) h = keeps.incr_gone key k t n (still_gone key l h)
    still_gone key (expires {t} k ttl l) h = keeps.expire_gone key k ttl t (still_gone key l h)
    still_gone key (writes {t} k bytes ttl n l) h =
        keeps.set_gone key k bytes ttl t n (still_gone key l h)
    still_gone key (reads {t} k l) h = keeps.get_gone key k t (still_gone key l h)
    still_gone key (deletes {t} k l) h = keeps.del_others key k t (still_gone key l h)
    still_gone key (consumes {t} token l) h = consume_gone key token t (still_gone key l h)

    -- With a Redis that keeps its promises, a token that was consumed is never consumed again: whatever time passes, and whatever commands run and tokens are consumed in between, this one too, with success or without, no later call returns an address for it, as long as its own key is not written again.
    pub consume-single :
        IsRedis redis
        → (token email : Bytes) (s s' t u : State) (again : Bytes)
        → consume redis hex_sum token s ≡ (ok email, s')
        → Later (token_key redis hex_sum token) s' t
        → consume redis hex_sum token t ≢ (ok again, u)
    consume-single good token email s s' t u again h later k =
        let key = token_key redis hex_sum token in
        let (v, _, removed) = consume_ok redis good hex_sum token email s s' h in
        let (w, found, _) = consume_ok redis good hex_sum token again t u k in
        let (seen, _) = good.get_value key t w (some again) found in
        some_none (seen ∙ still_gone key later (keeps.del_gone key v s' removed))
      where
        some_none : {b : Bytes} → some b ≢ none
        some_none h = ground arith
