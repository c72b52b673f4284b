-- ===== src/Worker/InFlight.antt =====
-- The number of calls in flight.
use flight_circle_search.Base.{
  if◌then◌else◌, zero, suc, ℕ, ◌+◌, ◌≤◌, ◌<◌, ◌≡◌, refl, sym, ap, subst, ◌∙◌, Bool, false, Option,
  none, some, List, [], ◌∷◌, ◌++◌, count, count-append, replicate, arith,
}
use flight_circle_search.Worker.Limiter.{
  Semaphore, IsSemaphore, RateLimiter, Phase, outside, admitted, inside, leaving, is_inside,
  is_busy, new_rate_limiter, take_slot, slotted, count_in, count_out, give_back, System, Step,
  waits, enters, leaves, returns_slot, Reach, here, next,
}

module _ (sem : Semaphore) (max : ℕ) where
  -- The free slots and the goroutines that have one make up the slots, and the counter has the goroutines that are inside.
  pub record IsCounted (s : System sem) : Type 0 where
    pub slots : sem.free s.limiter.sem + count is_busy s.callers ≡ max
    pub counter : s.limiter.inflight ≡ count is_inside s.callers
    pub limit : s.limiter.max_inflight ≡ max

  inside-le-busy : (cs : List Phase) → count is_inside cs ≤ count is_busy cs
  unfolding count
  inside-le-busy [] = omega arith
  inside-le-busy (outside ∷ cs) = ground (arith, inside-le-busy cs)
  inside-le-busy (admitted ∷ cs) = ground (arith, inside-le-busy cs)
  inside-le-busy (inside ∷ cs) = ground (arith, inside-le-busy cs)
  inside-le-busy (leaving ∷ cs) = ground (arith, inside-le-busy cs)

  slotted_inv :
      (l l' : RateLimiter sem.State) (o : Option sem.State)
      → slotted sem l o ≡ some l'
      → (s : sem.State) × (o ≡ some s) × (some (record l { sem = s }) ≡ some l')
  slotted_inv l l' none h = ground arith
  slotted_inv l l' (some s) h = (s, refl, h)

  limiter_inj : (l l' : RateLimiter sem.State) → some l ≡ some l' → l ≡ l'
  limiter_inj l l' h = cc

  took :
      IsSemaphore sem
      → (l l' : RateLimiter sem.State) → take_slot sem l ≡ some l'
      → (sem.free l.sem ≡ suc (sem.free l'.sem))
        × (l.inflight ≡ l'.inflight)
        × (l.max_inflight ≡ l'.max_inflight)
  unfolding take_slot
  took good l l' h =
      let (s, e, q) = slotted_inv l l' (sem.acquire l.sem) h in
      let r = limiter_inj (record l { sem = s }) l' q in
      (
        good.acquire_free l.sem s e ∙ ap (λ x. suc (sem.free x.sem)) r,
        ap (λ x. x.inflight) r,
        ap (λ x. x.max_inflight) r,
      )

  abbrev weight : (Phase → Bool) → Phase → ℕ
  weight p x = if p x then 1 else 0

  -- One goroutine went from `x` to `y`.
  moved :
      (p : Phase → Bool) (front back : List Phase) (x y : Phase) (cs : List Phase)
      → cs ≡ front ++ x ∷ back
      → count p (front ++ y ∷ back) + weight p x ≡ count p cs + weight p y
  unfolding count
  moved p front back x y cs e =
      let a = ap (count p) e ∙ count-append p front (x ∷ back) in
      let b = count-append p front (y ∷ back) in ground arith

  Step-IsCounted :
      IsSemaphore sem
      → max < 18446744073709551616
      → (s t : System sem) → Step sem s t
      → IsCounted s
      → IsCounted t
  unfolding count_in count_out give_back
  Step-IsCounted good small s t (waits front back l e q r) h =
      let (f, i, m) = took good s.limiter l q in
      let b = moved is_busy front back outside admitted s.callers e in
      let c = moved is_inside front back outside admitted s.callers e in
      let old = h.slots in
      let held = h.counter in
      let top = h.limit in
      subst IsCounted (sym r)
        (record { slots = omega arith; counter = omega arith; limit = sym m ∙ top })
  Step-IsCounted good small s t (enters front back e r) h =
      let b = moved is_busy front back admitted inside s.callers e in
      let c = moved is_inside front back admitted inside s.callers e in
      let bound = inside-le-busy (front ++ inside ∷ back) in
      let old = h.slots in
      let held = h.counter in
      subst IsCounted (sym r)
        (record { slots = omega arith; counter = omega arith; limit = h.limit })
  Step-IsCounted good small s t (leaves front back e r) h =
      let b = moved is_busy front back inside leaving s.callers e in
      let c = moved is_inside front back inside leaving s.callers e in
      let bound = inside-le-busy s.callers in
      let old = h.slots in
      let held = h.counter in
      subst IsCounted (sym r)
        (record { slots = omega arith; counter = omega arith; limit = h.limit })
  Step-IsCounted good small s t (returns_slot front back e r) h =
      let b = moved is_busy front back leaving outside s.callers e in
      let c = moved is_inside front back leaving outside s.callers e in
      let f = good.release_free s.limiter.sem in
      let old = h.slots in
      let held = h.counter in
      subst IsCounted (sym r)
        (record { slots = omega arith; counter = omega arith; limit = h.limit })

  abbrev pub started : ℕ → System sem
  started callers = record {
    limiter = new_rate_limiter sem max;
    callers = replicate callers outside;
  }

  none_of : (p : Phase → Bool) (n : ℕ) → p outside ≡ false → count p (replicate n outside) ≡ 0
  unfolding count
  none_of p zero h = refl
  none_of p (suc n) h = ground (arith, none_of p n h)

  started-IsCounted : IsSemaphore sem → (callers : ℕ) → IsCounted (started callers)
  unfolding new_rate_limiter
  started-IsCounted good callers =
      let f = good.make_free max in
      let a = none_of is_busy callers refl in
      let b = none_of is_inside callers refl in
      record { slots = omega arith; counter = omega arith; limit = refl }

  Reach-IsCounted :
      IsSemaphore sem
      → max < 18446744073709551616
      → (s t : System sem) → Reach sem s t
      → IsCounted s
      → IsCounted t
  Reach-IsCounted good small s t here h = h
  Reach-IsCounted good small s t (next {t = u} before step) h =
      Step-IsCounted good small u t step (Reach-IsCounted good small s u before h)

  -- Whatever any number of goroutines do, and in any order, the calls that have a slot are at most as many as the limiter was made for, and the counter is the number of goroutines between its two updates, which is not more.
  pub in_flight_bounded :
      IsSemaphore sem
      → max < 18446744073709551616
      → (callers : ℕ) (t : System sem) → Reach sem (started callers) t
      → (count is_busy t.callers ≤ max)
        × (t.limiter.inflight ≡ count is_inside t.callers)
        × (t.limiter.inflight ≤ t.limiter.max_inflight)
  in_flight_bounded good small callers t r =
      let h = Reach-IsCounted good small (started callers) t r (started-IsCounted good callers) in
      let a = h.slots in
      let b = h.counter in
      let c = h.limit in let d = inside-le-busy t.callers in (omega arith, b, omega arith)
