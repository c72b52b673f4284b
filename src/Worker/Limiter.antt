-- ===== src/Worker/Limiter.antt =====
-- internal/worker/ratelimiter.go: the slots of the calls in flight. The token bucket of
-- golang.org/x/time/rate and the semaphore of golang.org/x/sync are parameters. The atomic counter
-- is the word that holds it. Other goroutines may run between any two of the calls of `Wait` and
-- `Release`, so that each call is a step.
use flight_circle_search.Base.{
  ℕ, ◌+◌, ◌%◌, ◌≡◌, Bool, true, false, Option, none, some, List, ◌∷◌, ◌++◌, suc,
}

-- A semaphore, with how much of it is free; an acquisition of one is none while it waits.
pub record Semaphore : Type 1 where
  pub State : Type 0
  pub free : State → ℕ
  pub make : ℕ → State
  pub acquire : State → Option State
  pub release : State → State

-- What golang.org/x/sync documents of it.
pub record IsSemaphore (sem : Semaphore) : Type 0 where
  pub make_free : (n : ℕ) → sem.free (sem.make n) ≡ n
  pub acquire_free : (s s' : sem.State) → sem.acquire s ≡ some s' → sem.free s ≡ suc (sem.free s')
  pub release_free : (s : sem.State) → sem.free (sem.release s) ≡ suc (sem.free s)

pub record RateLimiter (S : Type 0) : Type 0 where
  pub sem : S
  pub inflight : ℕ
  pub max_inflight : ℕ

-- Where a goroutine is: before or after it has a slot, between the two updates of the counter, or before it gives the slot back.
pub data Phase : Type 0 where
  outside admitted inside leaving : Phase

abbrev pub is_inside : Phase → Bool
is_inside inside = true
is_inside _ = false

abbrev pub is_busy : Phase → Bool
is_busy outside = false
is_busy _ = true

module _ (sem : Semaphore) where
  unfoldable pub new_rate_limiter : ℕ → RateLimiter sem.State
  new_rate_limiter max = record { sem = sem.make max; inflight = 0; max_inflight = max }

  abbrev pub slotted : RateLimiter sem.State → Option sem.State → Option (RateLimiter sem.State)
  slotted l none = none
  slotted l (some s) = some (record l { sem = s })

  -- `l.sem.Acquire(ctx, 1)`, which stands behind the wait for the token bucket
  unfoldable pub take_slot : RateLimiter sem.State → Option (RateLimiter sem.State)
  take_slot l = slotted l (sem.acquire l.sem)

  -- `l.inflight.Add(1)`
  unfoldable pub count_in : RateLimiter sem.State → RateLimiter sem.State
  count_in l = record l { inflight = (l.inflight + 1) % 18446744073709551616 }

  -- `l.inflight.Add(-1)`
  unfoldable pub count_out : RateLimiter sem.State → RateLimiter sem.State
  count_out l = record l { inflight = (l.inflight + 18446744073709551615) % 18446744073709551616 }

  -- `l.sem.Release(1)`
  unfoldable pub give_back : RateLimiter sem.State → RateLimiter sem.State
  give_back l = record l { sem = sem.release l.sem }

  -- The limiter and the goroutines that use it.
  pub record System : Type 0 where
    pub limiter : RateLimiter sem.State
    pub callers : List Phase

  -- One goroutine does the next call of `Wait`, or of `Release`; one that gets an error of the context or of the bucket stays outside.
  pub data Step (s t : System) : Type 0 where
    waits :
        (front back : List Phase) (l : RateLimiter sem.State)
        → s.callers ≡ front ++ outside ∷ back
        → take_slot s.limiter ≡ some l
        → t ≡ record { limiter = l; callers = front ++ admitted ∷ back }
        → Step s t
    enters :
        (front back : List Phase)
        → s.callers ≡ front ++ admitted ∷ back
        → t ≡ record { limiter = count_in s.limiter; callers = front ++ inside ∷ back }
        → Step s t
    leaves :
        (front back : List Phase)
        → s.callers ≡ front ++ inside ∷ back
        → t ≡ record { limiter = count_out s.limiter; callers = front ++ leaving ∷ back }
        → Step s t
    returns_slot :
        (front back : List Phase)
        → s.callers ≡ front ++ leaving ∷ back
        → t ≡ record { limiter = give_back s.limiter; callers = front ++ outside ∷ back }
        → Step s t

  pub data Reach (s : System) : System → Type 0 where
    here : Reach s s
    next : {t u : System} → Reach s t → Step t u → Reach s u
