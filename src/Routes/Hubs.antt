-- ===== src/Routes/Hubs.antt =====
-- Which pairs the route filters keep.
use flight_circle_search.Base.{
  ◌≡◌, refl, sym, ◌∙◌, ◌≢◌, ◌↔◌, ◌⊎◌, inl, inr, Bool, true, not, ◌&&◌, ◌||◌, List, [], ◌∷◌, Memᴰ,
  Bytes, bytes_eq, ◌==◌, Bool-cases, arith, bytes_beq_iff, keep, mem-keep, mem_keep_of,
  contains→mem, mem→contains, contains-set_of, set_of,
}
use flight_circle_search.Routes.{
  RouteGraph, has, AirportPair, has_direct, reachable_via_hub, filter_by_routes, keeps_pair,
  filter_by_routes_with_hubs,
}

-- There is a route between the two codes, in one direction or the other.
abbrev pub Linked : RouteGraph → Bytes → Bytes → Type 0
Linked graph a b = (has graph a b || has graph b a) ≡ true

-- A hub other than both ends that is linked to each of them.
abbrev pub Connects : RouteGraph → List Bytes → Bytes → Bytes → Bytes → Type 0
Connects graph hubs from to hub =
    Memᴰ hub hubs × (hub ≢ from) × (hub ≢ to) × Linked graph from hub × Linked graph hub to

module _ (graph : RouteGraph) (from to : Bytes) where
  Connects-tail :
      (h : Bytes) (hubs : List Bytes)
      → (k : Bytes) × Connects graph hubs from to k
      → (k : Bytes) × Connects graph (h ∷ hubs) from to k
  Connects-tail h hubs (k, (m, a, b, c, d)) = (k, (Memᴰ.tail m, a, b, c, d))

  -- The tests of one round of the loop over the hubs.
  joins : Bytes → Bool
  joins hub =
      not (hub == from || hub == to)
      && (has graph from hub || has graph hub from)
      && (has graph hub to || has graph to hub)

  joins_iff :
      (hub : Bytes)
      → (joins hub ≡ true)
        ↔ ((hub ≢ from) × (hub ≢ to) × Linked graph from hub × Linked graph hub to)
  unfolding joins
  joins_iff hub = ground (arith, bytes_beq_iff hub from, bytes_beq_iff hub to)

  reachable_via_hub-cons :
      (hub : Bytes) (hubs : List Bytes)
      → reachable_via_hub from to graph (hub ∷ hubs)
        ≡ (joins hub || reachable_via_hub from to graph hubs)
  unfolding reachable_via_hub joins
  reachable_via_hub-cons hub hubs = ground arith

  reachable_via_hub_to :
      (hubs : List Bytes)
      → reachable_via_hub from to graph hubs ≡ true
      → (hub : Bytes) × Connects graph hubs from to hub
  unfolding reachable_via_hub
  reachable_via_hub_to [] h = cc
  reachable_via_hub_to (k ∷ hubs) h = elim (Bool-cases (joins k)) [
    | inl q ↦ let (a, b, c, d) = (joins_iff k).0 q in (k, (Memᴰ.head refl, a, b, c, d))
    | inr q ↦
        Connects-tail k hubs
          (reachable_via_hub_to hubs (ground (arith, reachable_via_hub-cons k hubs)))
  ]

  reachable_via_hub_of :
      (hub : Bytes) (hubs : List Bytes)
      → Connects graph hubs from to hub
      → reachable_via_hub from to graph hubs ≡ true
  reachable_via_hub_of hub [] (m, a, b, c, d) = elim m [ ]
  reachable_via_hub_of hub (k ∷ hubs) (Memᴰ.head e, a, b, c, d) =
      rw (reachable_via_hub-cons k hubs, ← e, (joins_iff hub).1 (a, b, c, d))
  reachable_via_hub_of hub (k ∷ hubs) (Memᴰ.tail m, a, b, c, d) =
      ground (arith, reachable_via_hub-cons k hubs, reachable_via_hub_of hub hubs (m, a, b, c, d))

  -- A connection is reported exactly if there is a hub, other than both ends, that is linked to each of them.
  pub reachable_via_hub_iff :
      (hubs : List Bytes)
      → (reachable_via_hub from to graph hubs ≡ true)
        ↔ ((hub : Bytes) × Connects graph hubs from to hub)
  reachable_via_hub_iff hubs =
      (reachable_via_hub_to hubs, λ (hub, c). reachable_via_hub_of hub hubs c)

-- The route between two codes is direct, or there is a connection through one of the hubs.
abbrev pub Flyable : RouteGraph → List Bytes → Bytes → Bytes → Type 0
Flyable graph hubs from to =
    Linked graph from to ⊎ ((hub : Bytes) × Connects graph hubs from to hub)

Linked-sym : (graph : RouteGraph) (a b : Bytes) → Linked graph a b → Linked graph b a
Linked-sym graph a b h = ground arith

Flyable-sym :
    (graph : RouteGraph) (hubs : List Bytes) (a b : Bytes)
    → Flyable graph hubs a b
    → Flyable graph hubs b a
Flyable-sym graph hubs a b f = elim f [
  | inl l ↦ inl (Linked-sym graph a b l)
  | inr (k, (m, p, q, r, s)) ↦ inr (k, (m, q, p, Linked-sym graph k b s, Linked-sym graph a k r))
]

Flyable-set_of :
    (graph : RouteGraph) (hubs : List Bytes) (a b : Bytes)
    → Flyable graph (set_of hubs) a b ↔ Flyable graph hubs a b
Flyable-set_of graph hubs a b = (
  λ f. elim f [ inl l ↦ inl l | inr (k, (m, p, q, r, s)) ↦ inr (k, (out k m, p, q, r, s)) ],
  λ f. elim f [ inl l ↦ inl l | inr (k, (m, p, q, r, s)) ↦ inr (k, (into k m, p, q, r, s)) ],
)
  where
    out : (k : Bytes) → Memᴰ k (set_of hubs) → Memᴰ k hubs
    out k m = contains→mem k hubs (sym (contains-set_of k hubs) ∙ mem→contains k (set_of hubs) m)

    into : (k : Bytes) → Memᴰ k hubs → Memᴰ k (set_of hubs)
    into k m = contains→mem k (set_of hubs) (contains-set_of k hubs ∙ mem→contains k hubs m)

module _ {F : Type 0} (graph : RouteGraph) where
  keeps_pair_eq :
      (hubs : List Bytes) (p : AirportPair F)
      → keeps_pair graph hubs p
        ≡ (has_direct graph p || reachable_via_hub p.origin.iata p.destination.iata graph hubs)
  unfolding keeps_pair has_direct
  keeps_pair_eq hubs p = ground arith

  keeps_pair_iff :
      (hubs : List Bytes) (p : AirportPair F)
      → (keeps_pair graph hubs p ≡ true) ↔ Flyable graph hubs p.origin.iata p.destination.iata
  unfolding has_direct
  keeps_pair_iff hubs p =
      let via = reachable_via_hub_iff graph p.origin.iata p.destination.iata hubs in
      (
        λ h. elim (Bool-cases (has_direct graph p)) [
          | inl l ↦ inl l
          | inr n ↦ inr (via.0 (ground (arith, keeps_pair_eq hubs p)))
        ],
        λ f. elim f [
          | inl l ↦ ground (arith, keeps_pair_eq hubs p)
          | inr c ↦ ground (arith, keeps_pair_eq hubs p, via.1 c)
        ],
      )

  filter_by_hubs :
      (pairs : List (AirportPair F)) (k : Bytes) (hubs : List Bytes)
      → filter_by_routes_with_hubs pairs graph (k ∷ hubs)
        ≡ keep (keeps_pair graph (set_of (k ∷ hubs))) pairs
  unfolding filter_by_routes_with_hubs
  filter_by_hubs pairs k hubs = ground arith

  -- The filter keeps exactly the pairs of its input that are linked directly, or through a hub of the list, without regard to the order and the repetitions of that list.
  pub mem-filter_by_routes_with_hubs :
      (pairs : List (AirportPair F)) (hubs : List Bytes) (p : AirportPair F)
      → Memᴰ p (filter_by_routes_with_hubs pairs graph hubs)
        ↔ (Memᴰ p pairs × Flyable graph hubs p.origin.iata p.destination.iata)
  unfolding filter_by_routes_with_hubs filter_by_routes has_direct
  mem-filter_by_routes_with_hubs pairs [] p = (
    λ m. let (here, l) = mem-keep _ pairs m in (here, inl l),
    λ (here, f).
        mem_keep_of _ pairs here (elim f [ inl l ↦ l | inr (k, (m, _, _, _, _)) ↦ elim m [ ] ]),
  )
  mem-filter_by_routes_with_hubs pairs (k ∷ hubs) p = rw (filter_by_hubs pairs k hubs) (
    λ m.
        let (here, l) = mem-keep _ pairs m in
        (
          here,
          (Flyable-set_of graph (k ∷ hubs) _ _).0 ((keeps_pair_iff (set_of (k ∷ hubs)) p).0 l),
        ),
    λ (here, f).
        mem_keep_of _ pairs here
          ((keeps_pair_iff (set_of (k ∷ hubs)) p).1 ((Flyable-set_of graph (k ∷ hubs) _ _).1 f)),
  )

  -- The order of the codes of a pair does not matter: whenever the input holds a pair in both directions, the filter keeps both or neither.
  pub filter_by_routes_with_hubs_symmetric :
      (pairs : List (AirportPair F)) (hubs : List Bytes) (p : AirportPair F)
      → Memᴰ p (filter_by_routes_with_hubs pairs graph hubs)
      → Memᴰ (record { origin = p.destination; destination = p.origin }) pairs
      → Memᴰ
          (record { origin = p.destination; destination = p.origin })
          (filter_by_routes_with_hubs pairs graph hubs)
  filter_by_routes_with_hubs_symmetric pairs hubs p m back =
      (mem-filter_by_routes_with_hubs pairs hubs _).1
        (back, Flyable-sym graph hubs _ _ ((mem-filter_by_routes_with_hubs pairs hubs p).0 m).1)
