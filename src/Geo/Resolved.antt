-- ===== src/Geo/Resolved.antt =====
-- What `ResolveAirports` returns: the airports in the circle, one for each code.
use mathlib.Core.Path.{fun_ext}
use flight_circle_search.Base.{
  ◌≡◌, refl, sym, ap, ◌∙◌, subst, inl, inr, Bool, true, false, not, ◌&&◌, ◌||◌, List, [], ◌∷◌, ◌++◌,
  append_assoc, append-nil, Bytes, bytes_eq, ok, contains, keep, ◌==◌, Bool-cases, arith,
  bytes_beq_iff,
}
use flight_circle_search.Floats.{Floats}
use flight_circle_search.Geo.{
  Point, Airport, Found, haversine_distance_km, is_valid_point, visit, visit_all, resolve_airports,
}

module _ {F : Type 0} where
  -- The first airport of each code, in the order of the list.
  unfoldable pub first_of_each : List (Airport F) → List (Airport F)
  first_of_each [] = []
  first_of_each (a ∷ rest) = a ∷ keep (λ b. not (b.iata == a.iata)) (first_of_each rest)

  abbrev unseen : List Bytes → Airport F → Bool
  unseen seen a = not (contains a.iata seen)

keep-keep {ℓ} :
    {A : Type ℓ} (p q : A → Bool) (xs : List A) → keep p (keep q xs) ≡ keep (λ x. q x && p x) xs
unfolding keep
keep-keep p q [] = refl
keep-keep p q (x ∷ xs) = ground (arith, keep-keep p q xs)

module _ {F : Type 0} where
  keep-unseen-cons :
      (seen : List Bytes) (c : Bytes) (xs : List (Airport F))
      → keep (unseen (c ∷ seen)) xs ≡ keep (unseen seen) (keep (λ b. not (b.iata == c)) xs)
  unfolding contains
  keep-unseen-cons seen c xs =
      ap (λ p. keep p xs) (fun_ext (λ (a : Airport F). split (a.iata == c) (contains a.iata seen)))
      ∙ sym (keep-keep (unseen seen) (λ b. not (b.iata == c)) xs)
    where
      split : (x y : Bool) → not (x || y) ≡ (not x && not y)
      split x y = ground arith

  keep-unseen-seen :
      (seen : List Bytes) (c : Bytes) (xs : List (Airport F))
      → contains c seen ≡ true
      → keep (unseen seen) xs ≡ keep (unseen seen) (keep (λ b. not (b.iata == c)) xs)
  keep-unseen-seen seen c xs h =
      ap (λ p. keep p xs) (fun_ext both) ∙ sym (keep-keep (unseen seen) (λ b. not (b.iata == c)) xs)
    where
      both : (a : Airport F) → unseen seen a ≡ (not (a.iata == c) && unseen seen a)
      both a = elim (Bool-cases (a.iata == c)) [
        | inl q ↦
            rw (subst (λ d. contains d seen ≡ true) (sym ((bytes_beq_iff a.iata c).0 q)) h)
              (ground arith)
        | inr q ↦ rw q
      ]

  keep-unseen-nil : (xs : List (Airport F)) → keep (unseen []) xs ≡ xs
  unfolding keep contains
  keep-unseen-nil [] = refl
  keep-unseen-nil (x ∷ xs) = rw (keep-unseen-nil xs)

module _ (fl : Floats) where
  open fl use {Float, le, of_ℕ}

  -- An airport that the search may return: well placed, and no further away than the radius.
  unfoldable pub in_circle : Point Float → Float → Airport Float → Bool
  in_circle center radius a =
      is_valid_point fl a.location && le (haversine_distance_km fl center a.location) radius

  module _ (center : Point Float) (radius : Float) (s : Found Float) (a : Airport Float) where
    visit_out : in_circle center radius a ≡ false → visit fl center radius s a ≡ s
    unfolding visit in_circle
    visit_out h = ground arith

    visit_seen :
        in_circle center radius a ≡ true
        → contains a.iata s.seen ≡ true
        → visit fl center radius s a ≡ s
    unfolding visit in_circle
    visit_seen h old = ground arith

    visit_new :
        in_circle center radius a ≡ true
        → contains a.iata s.seen ≡ false
        → visit fl center radius s a
          ≡ record { result = s.result ++ a ∷ []; seen = a.iata ∷ s.seen }
    unfolding visit in_circle
    visit_new h new = ground arith

  visit_all-result :
      (center : Point Float) (radius : Float) (s : Found Float) (airports : List (Airport Float))
      → (visit_all fl center radius s airports).result
        ≡ s.result ++ keep (unseen s.seen) (first_of_each (keep (in_circle center radius) airports))
  unfolding visit_all keep first_of_each
  visit_all-result center radius s [] = sym (append-nil s.result)
  visit_all-result center radius s (a ∷ rest) =
      let inside = first_of_each (keep (in_circle center radius) rest) in
      elim (Bool-cases (in_circle center radius a)) [
        | inr e ↦
            rw (visit_all, visit_out center radius s a e, e) (visit_all-result center radius s rest)
        | inl e ↦ elim (Bool-cases (contains a.iata s.seen)) [
          | inl old ↦
              rw (visit_all, visit_seen center radius s a e old, e, old)
                (visit_all-result center radius s rest
                  ∙ ap (λ l. s.result ++ l) (keep-unseen-seen s.seen a.iata inside old))
          | inr new ↦
              rw (visit_all, visit_new center radius s a e new, e, new)
                (visit_all-result center radius
                    (record { result = s.result ++ a ∷ []; seen = a.iata ∷ s.seen }) rest
                  ∙ append_assoc s.result (a ∷ []) (keep (unseen (a.iata ∷ s.seen)) inside)
                  ∙ ap (λ l. s.result ++ a ∷ l) (keep-unseen-cons s.seen a.iata inside))
        ]
      ]

  -- Inside the map's range and for a positive radius, the search returns, in the order of the list, the first airport of each code among those in the circle.
  pub resolve_airports-eq-first_of_each :
      (center : Point Float) (radius : Float) (airports : List (Airport Float))
      → le radius (of_ℕ 0) ≡ false
      → is_valid_point fl center ≡ true
      → resolve_airports fl center radius airports
        ≡ ok (first_of_each (keep (in_circle center radius) airports))
  unfolding resolve_airports
  resolve_airports-eq-first_of_each center radius airports r v =
      rw (r, v)
        (ap ok (
          visit_all-result center radius (record { result = []; seen = [] }) airports
          ∙ keep-unseen-nil (first_of_each (keep (in_circle center radius) airports))))
