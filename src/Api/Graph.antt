-- ===== src/Api/Graph.antt =====
-- Which routes are read.
use flight_circle_search.Base.{
  &&-split, ◌≢◌, bytes_beq_iff, ◌≡◌, refl, sym, ap, ◌∙◌, ◌↔◌, ◌⊎◌, inl, inr, Bool, true, false,
  ◌||◌, ◌&&◌, Option, none, some, List, [], ◌∷◌, Memᴰ, Bytes, bytes_eq, ◌==◌, lookup, lookup-insert,
  add, contains, contains-add, beq_refl, Bool-cases, Option-cases, arith, ok,
}
use flight_circle_search.Routes.{RouteGraph, has}
use flight_circle_search.Api.Airports.{
  known_from, route_of, add_route, with_route, read_routes, route_graph,
}

abbrev holds : Bytes → Option (List Bytes) → Bool
holds b none = false
holds b (some dests) = contains b dests

has-holds : (graph : RouteGraph) (a b : Bytes) → has graph a b ≡ holds b (lookup a graph)
unfolding has
has-holds graph a b = elim (Option-cases (lookup a graph)) [
  | inl e ↦ rw (has, e) refl
  | inr (dests, e) ↦ rw (has, e) refl
]

holds-added :
    (b to : Bytes) (o : Option (List Bytes))
    → contains b (add to (known_from o)) ≡ (b == to || holds b o)
unfolding contains
holds-added b to none = contains-add b to []
holds-added b to (some dests) = contains-add b to dests

has-add_route :
    (from to a b : Bytes) (graph : RouteGraph)
    → has (add_route from to graph) a b ≡ (a == from && b == to || has graph a b)
unfolding add_route
has-add_route from to a b graph =
    let dests = add to (known_from (lookup from graph)) in
    has-holds (add_route from to graph) a b
    ∙ ap (holds b) (lookup-insert a from dests graph)
    ∙ (elim (Bool-cases (a == from)) [
      | inl q ↦ rw q (
          holds-added b to (lookup from graph)
          ∙ ap (λ k. b == to || holds b (lookup k graph)) (sym ((bytes_beq_iff a from).0 q))
          ∙ ap (λ x. b == to || x) (sym (has-holds graph a b)))
      | inr q ↦ rw q (sym (has-holds graph a b))
    ])

-- A line that is parsed as a route from `a` to `b`.
abbrev pub IsParsed : Bytes → Bytes → Bytes → Type 0
IsParsed a b line = route_of line ≡ some (a, b)

has-add_route_new : (a b : Bytes) (graph : RouteGraph) → has (add_route a b graph) a b ≡ true
has-add_route_new a b graph = has-add_route a b a b graph ∙ rw (beq_refl a, beq_refl b) refl

has-add_route_old :
    (from to a b : Bytes) (graph : RouteGraph)
    → has graph a b ≡ true
    → has (add_route from to graph) a b ≡ true
has-add_route_old from to a b graph h =
    has-add_route from to a b graph ∙ rw h (or_true (a == from && b == to))
  where
    or_true : (x : Bool) → (x || true) ≡ true
    or_true true = refl
    or_true false = refl

step_old :
    (a b : Bytes) (graph : RouteGraph) (r : Option (Bytes × Bytes))
    → has graph a b ≡ true
    → has (with_route r graph) a b ≡ true
step_old a b graph none h = h
step_old a b graph (some (from, to)) h = has-add_route_old from to a b graph h

step_new :
    (a b : Bytes) (graph : RouteGraph) (line : Bytes)
    → IsParsed a b line
    → has (with_route (route_of line) graph) a b ≡ true
step_new a b graph line e = ap (λ r. has (with_route r graph) a b) e ∙ has-add_route_new a b graph

step_from :
    (a b : Bytes) (graph : RouteGraph) (r : Option (Bytes × Bytes))
    → has (with_route r graph) a b ≡ true
    → (r ≡ some (a, b)) ⊎ (has graph a b ≡ true)
step_from a b graph none h = inr h
step_from a b graph (some (from, to)) h = elim (Bool-cases (a == from && b == to)) [
  | inl q ↦
      let (x, y) = &&-split (a == from) (b == to) q in
      let u = (bytes_beq_iff a from).0 x in
      let v = (bytes_beq_iff b to).0 y in
      inl (ap (λ k. some (k, to)) (sym u) ∙ ap (λ k. some (a, k)) (sym v))
  | inr q ↦ inr (ap (λ x. x || has graph a b) (sym q) ∙ sym (has-add_route from to a b graph) ∙ h)
]

read_old :
    (a b : Bytes) (graph : RouteGraph) (lines : List Bytes)
    → has graph a b ≡ true
    → has (read_routes graph lines) a b ≡ true
unfolding read_routes
read_old a b graph [] h = h
read_old a b graph (line ∷ lines) h =
    read_old a b (with_route (route_of line) graph) lines (step_old a b graph (route_of line) h)

read_new :
    (a b : Bytes) (graph : RouteGraph) (lines : List Bytes) (line : Bytes)
    → IsParsed a b line
    → Memᴰ line lines
    → has (read_routes graph lines) a b ≡ true
unfolding read_routes
read_new a b graph [] line e m = elim m [ ]
read_new a b graph (l ∷ lines) line e (Memᴰ.head q) =
    read_old a b (with_route (route_of l) graph) lines
      (step_new a b graph l (ap route_of (sym q) ∙ e))
read_new a b graph (l ∷ lines) line e (Memᴰ.tail m) =
    read_new a b (with_route (route_of l) graph) lines line e m

-- The lines of a route.
abbrev pub IsRead : Bytes → Bytes → List Bytes → Type 0
IsRead a b lines = (line : Bytes) × Memᴰ line lines × IsParsed a b line

IsRead-from :
    (a b : Bytes) (graph : RouteGraph) (lines : List Bytes)
    → has (read_routes graph lines) a b ≡ true
    → IsRead a b lines ⊎ (has graph a b ≡ true)
unfolding read_routes
IsRead-from a b graph [] h = inr h
IsRead-from a b graph (line ∷ lines) h =
    elim (IsRead-from a b (with_route (route_of line) graph) lines h) [
      | inl (l, m, e) ↦ inl (l, Memᴰ.tail m, e)
      | inr k ↦ elim (step_from a b graph (route_of line) k) [
        | inl e ↦ inl (line, Memᴰ.head refl, e)
        | inr old ↦ inr old
      ]
    ]

nothing_there : (a b : Bytes) → has [] a b ≢ true
unfolding has lookup
nothing_there a b h = ground arith

-- The routes of the graph, in the terms of the code.
pub has-route_graph :
    (lines : List Bytes) (a b : Bytes)
    → (graph : RouteGraph) × (route_graph (lines, none) ≡ ok graph)
      × ((has graph a b ≡ true) ↔ IsRead a b lines)
unfolding route_graph
has-route_graph lines a b = (
  read_routes [] lines,
  refl,
  (
    λ h. elim (IsRead-from a b [] lines h) [ inl p ↦ p | inr k ↦ absurd (nothing_there a b k) ],
    λ (line, m, e). read_new a b [] lines line e m,
  ),
)
