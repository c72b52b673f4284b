-- ===== src/Api/Lines.antt =====
-- Which lines give a route.
use flight_circle_search.Base.{
  ℕ, ◌≡◌, ◌≢◌, refl, sym, ap, ◌∙◌, subst, ◌↔◌, ◌⊎◌, inl, inr, Bool-cases, true, Option, none, some,
  List, [], ◌∷◌, ◌++◌, Memᴰ, Bytes, All, nat_eq, ◌==◌, nat_beq_iff, ne_of_beq, beq_of_ne, reverse,
  reverse-append, reverse-reverse, trim_space, ok, arith,
}
use flight_circle_search.Routes.{RouteGraph, has}
use flight_circle_search.Api.Airports.{
  without_first_cr, trim_cr, behind, split_two, both, trimmed, route_of, route_graph,
}
use flight_circle_search.Api.Graph.{has-route_graph}

-- The line without a carriage return (13) at its end.
abbrev pub IsBody : Bytes → Bytes → Type 0
IsBody line body =
    (line ≡ body ++ 13 ∷ []) ⊎ ((line ≡ body) × ((front : Bytes) → line ≢ front ++ 13 ∷ []))

-- No comma (44).
abbrev pub IsPlain : Bytes → Type 0
IsPlain = All (λ (c : ℕ). c ≢ 44)

-- The line has the two codes, neither of them empty, on both sides of its first comma, up to white space.
abbrev pub IsRoute : Bytes → Bytes → Bytes → Type 0
IsRoute a b line =
    (body : Bytes) × (s : Bytes) × (t : Bytes) × IsBody line body
    × (body ≡ s ++ 44 ∷ t)
    × IsPlain s
    × (trim_space s ≡ a)
    × (trim_space t ≡ b)
    × (a ≢ [])
    × (b ≢ [])

some_pair :
    {x y s t : Bytes}
    → ◌≡◌ {A = Option (Bytes × Bytes)} (some (x, y)) (some (s, t))
    → (x ≡ s) × (y ≡ t)
some_pair h = (cc, cc)

cons_empty : {c : ℕ} {s : Bytes} → c ∷ s ≢ []
cons_empty h = ground arith

head_of : {c d : ℕ} {s t : Bytes} → c ∷ s ≡ d ∷ t → c ≡ d
head_of h = cc

behind_inv :
    (b : ℕ) (bs s t : Bytes) (o : Option (Bytes × Bytes))
    → b ≢ 44
    → ((x y : Bytes) → o ≡ some (x, y) → (bs ≡ x ++ 44 ∷ y) × IsPlain x)
    → behind b o ≡ some (s, t)
    → (b ∷ bs ≡ s ++ 44 ∷ t) × IsPlain s
behind_inv b bs s t none n rest h = ground arith
behind_inv b bs s t (some (x, y)) n rest h =
    let (e, f) = some_pair h in
    let (g, plain) = rest x y refl in
    subst (λ z. (b ∷ bs ≡ z ++ 44 ∷ t) × IsPlain z) e
      (ap (λ z. b ∷ z) (g ∙ ap (λ k. x ++ 44 ∷ k) f), (n, plain))

split_inv : (bs s t : Bytes) → split_two bs ≡ some (s, t) → (bs ≡ s ++ 44 ∷ t) × IsPlain s
unfolding split_two
split_inv [] s t h = ground arith
split_inv (b ∷ bs) s t h = elim (Bool-cases (b == 44)) [
  | inl q ↦
      let (e, f) = some_pair (rw q at h) in
      let comma = (nat_beq_iff b 44).0 q in
      subst (λ z. (b ∷ bs ≡ z ++ 44 ∷ t) × IsPlain z) e
        (ap (λ c. c ∷ bs) comma ∙ ap (λ k. 44 ∷ k) f, tt)
  | inr q ↦
      behind_inv b bs s t (split_two bs) (ne_of_beq b 44 q) (λ x y e. split_inv bs x y e)
        (rw q at h)
]

split_of : (s t : Bytes) → IsPlain s → split_two (s ++ 44 ∷ t) ≡ some (s, t)
unfolding split_two
split_of [] t h = refl
split_of (b ∷ s) t h = rw (beq_of_ne b 44 h.0, split_of s t h.1) refl

both_cons : (x y : ℕ) (u v : Bytes) → both (x ∷ u) (y ∷ v) ≡ some (x ∷ u, y ∷ v)
both_cons x y u v = ground arith

both_inv : (u v a b : Bytes) → both u v ≡ some (a, b) → (u ≡ a) × (v ≡ b) × (a ≢ []) × (b ≢ [])
both_inv [] v a b h = ground arith
both_inv (x ∷ u) [] a b h = ground arith
both_inv (x ∷ u) (y ∷ v) a b h =
    let (e, f) = some_pair (sym (both_cons x y u v) ∙ h) in
    (e, f, (λ k. cons_empty (e ∙ k)), (λ k. cons_empty (f ∙ k)))

both_of : (u v : Bytes) → u ≢ [] → v ≢ [] → both u v ≡ some (u, v)
both_of [] v n m = absurd (n refl)
both_of (x ∷ u) [] n m = absurd (m refl)
both_of (x ∷ u) (y ∷ v) n m = both_cons x y u v

trimmed_inv :
    (o : Option (Bytes × Bytes)) (a b : Bytes)
    → trimmed o ≡ some (a, b)
    → (s : Bytes) × (t : Bytes) × (o ≡ some (s, t))
      × (both (trim_space s) (trim_space t) ≡ some (a, b))
trimmed_inv none a b h = ground arith
trimmed_inv (some (s, t)) a b h = (s, t, refl, h)

reverse-cons : (c : ℕ) (r : Bytes) → reverse (c ∷ r) ≡ reverse r ++ c ∷ []
reverse-cons c r = reverse-append (c ∷ []) r

reverse-end : (front : Bytes) → reverse (front ++ 13 ∷ []) ≡ 13 ∷ reverse front
reverse-end front = reverse-append front (13 ∷ [])

IsBody-of_reverse : (r : Bytes) → IsBody (reverse r) (reverse (without_first_cr r))
IsBody-of_reverse [] =
    inr (refl, λ front e. cons_empty (sym (reverse-end front) ∙ ap reverse (sym e)))
IsBody-of_reverse (c ∷ r) = elim (Bool-cases (c == 13)) [
  | inl q ↦ rw q (inl (reverse-cons c r ∙ ap (λ d. reverse r ++ d ∷ []) ((nat_beq_iff c 13).0 q)))
  | inr q ↦ rw q (
      inr (
        refl,
        λ front e.
            ne_of_beq c 13 q
              (head_of (sym (reverse-reverse (c ∷ r)) ∙ ap reverse e ∙ reverse-end front)),
      ))
]

IsBody-of : (line : Bytes) → IsBody line (trim_cr line)
unfolding trim_cr
IsBody-of line =
    subst (λ l. IsBody l (trim_cr line)) (reverse-reverse line) (IsBody-of_reverse (reverse line))

body_unique : (line body : Bytes) → IsBody line body → trim_cr line ≡ body
unfolding trim_cr
body_unique line body (inl e) =
    ap (λ r. reverse (without_first_cr r)) (ap reverse e ∙ reverse-end body) ∙ reverse-reverse body
body_unique line body (inr (e, bare)) = elim (IsBody-of line) [
  | inl f ↦ absurd (bare (trim_cr line) f)
  | inr (f, _) ↦ sym f ∙ e
]

route_of_iff : (a b line : Bytes) → (route_of line ≡ some (a, b)) ↔ IsRoute a b line
unfolding route_of
route_of_iff a b line = (
  λ h.
      let (s, t, e, f) = trimmed_inv (split_two (trim_cr line)) a b h in
      let (g, plain) = split_inv (trim_cr line) s t e in
      let (u, v, n, m) = both_inv (trim_space s) (trim_space t) a b f in
      (trim_cr line, s, t, IsBody-of line, g, plain, u, v, n, m),
  λ (body, s, t, is_body, g, plain, u, v, n, m).
      ap (λ l. trimmed (split_two l)) (body_unique line body is_body ∙ g)
      ∙ ap trimmed (split_of s t plain)
      ∙ ap (λ x. both x (trim_space t)) u
      ∙ ap (both a) v
      ∙ both_of a b n m,
)

-- A line of these gives the route.
abbrev pub IsGiven : Bytes → Bytes → List Bytes → Type 0
IsGiven a b lines = (line : Bytes) × Memᴰ line lines × IsRoute a b line

-- If the lines were read without an error, the graph has a route from one code to another exactly if a line gives it: if the line, without a carriage return at its end, has the first code before its first comma and the second code after it, up to white space around them, and neither is empty.
pub has-route_graph_iff :
    (lines : List Bytes) (a b : Bytes)
    → (graph : RouteGraph) × (route_graph (lines, none) ≡ ok graph)
      × ((has graph a b ≡ true) ↔ IsGiven a b lines)
has-route_graph_iff lines a b =
    let (graph, e, h) = has-route_graph lines a b in
    (
      graph,
      e,
      (
        λ k. let (line, m, r) = h.0 k in (line, m, (route_of_iff a b line).0 r),
        λ (line, m, r). h.1 (line, m, (route_of_iff a b line).1 r),
      ),
    )
