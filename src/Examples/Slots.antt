-- ===== src/Examples/Slots.antt =====
-- The limiter at concrete inputs.
use flight_circle_search.Base.{
  ℕ, suc, zero, ◌≤◌, ◌≡◌, refl, Option, none, some, [], ◌∷◌, count, arith,
}
use flight_circle_search.Worker.Limiter.{
  Semaphore, IsSemaphore, outside, inside, is_inside, is_busy, new_rate_limiter, take_slot,
  count_in, System, waits, enters, Reach, here, next,
}
use flight_circle_search.Worker.InFlight.{started, in_flight_bounded}

abbrev taken : ℕ → Option ℕ
taken zero = none
taken (suc n) = some n

-- A semaphore that is the number of its free slots.
abbrev pub slots : Semaphore
slots = record { State = ℕ; free = λ n. n; make = λ n. n; acquire = taken; release = λ n. suc n }

taken_one : (n m : ℕ) → taken n ≡ some m → n ≡ suc m
taken_one zero m h = ground arith
taken_one (suc n) m h = ground arith

slots-IsSemaphore : IsSemaphore slots
slots-IsSemaphore = record {
  make_free = λ n. refl;
  acquire_free = taken_one;
  release_free = λ n. refl;
}

-- Of two goroutines one has the only slot, and is counted.
abbrev one_inside : System slots
one_inside = record {
  limiter = record { sem = 0; inflight = 1; max_inflight = 1 };
  callers = inside ∷ outside ∷ [];
}

reached : Reach slots (started slots 1 2) one_inside
unfolding new_rate_limiter take_slot count_in
reached =
    next
      (next here (
        waits [] (outside ∷ []) (record { sem = 0; inflight = 0; max_inflight = 1 }) refl refl
          refl))
      (enters [] (outside ∷ []) refl refl)

in_flight_bounded_example :
    (count is_busy one_inside.callers ≤ 1)
    × (one_inside.limiter.inflight ≡ count is_inside one_inside.callers)
    × (one_inside.limiter.inflight ≤ one_inside.limiter.max_inflight)
in_flight_bounded_example =
    in_flight_bounded slots 1 slots-IsSemaphore (omega arith) 2 one_inside reached
