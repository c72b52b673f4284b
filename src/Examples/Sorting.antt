-- ===== src/Examples/Sorting.antt =====
-- A sort, which shows that the promise of package sort can be kept.
use flight_circle_search.Base.{
  Bool, ◌≡◌, ◌↔◌, false, List, [], ◌∷◌, Memᴰ, All-at, All-of, if◌then◌else◌, Bool-cases, inl, inr,
}
use flight_circle_search.Fares.{Fare}
use flight_circle_search.Fares.Fallback.{IsSortedBy, IsOrder, SortsSlices}

unfoldable pub insert_fare : (Fare → Fare → Bool) → Fare → List Fare → List Fare
insert_fare less f [] = f ∷ []
insert_fare less f (g ∷ fares) =
    let rest = insert_fare less f fares in if less g f then g ∷ rest else f ∷ g ∷ fares

unfoldable pub sort_fares : (Fare → Fare → Bool) → List Fare → List Fare
sort_fares less [] = []
sort_fares less (f ∷ fares) = insert_fare less f (sort_fares less fares)

mem_insert :
    (less : Fare → Fare → Bool) (f g : Fare) (fares : List Fare)
    → Memᴰ g (insert_fare less f fares)
    → Memᴰ g (f ∷ fares)
unfolding insert_fare
mem_insert less f g [] m = m
mem_insert less f g (x ∷ fares) m = elim (Bool-cases (less x f)) [
  | inl q ↦ elim (rw q at m) [
    | Memᴰ.head e ↦ Memᴰ.tail (Memᴰ.head e)
    | Memᴰ.tail t ↦ elim (mem_insert less f g fares t) [
      | Memᴰ.head e ↦ Memᴰ.head e
      | Memᴰ.tail u ↦ Memᴰ.tail (Memᴰ.tail u)
    ]
  ]
  | inr q ↦ rw q at m
]

insert_mem :
    (less : Fare → Fare → Bool) (f g : Fare) (fares : List Fare)
    → Memᴰ g (f ∷ fares)
    → Memᴰ g (insert_fare less f fares)
unfolding insert_fare
insert_mem less f g [] m = m
insert_mem less f g (x ∷ fares) m = elim (Bool-cases (less x f)) [
  | inl q ↦ rw q (elim m [
    | Memᴰ.head e ↦ Memᴰ.tail (insert_mem less f g fares (Memᴰ.head e))
    | Memᴰ.tail (Memᴰ.head e) ↦ Memᴰ.head e
    | Memᴰ.tail (Memᴰ.tail u) ↦ Memᴰ.tail (insert_mem less f g fares (Memᴰ.tail u))
  ])
  | inr q ↦ rw q m
]

insert-IsSortedBy :
    (less : Fare → Fare → Bool) (order : IsOrder less) (f : Fare) (fares : List Fare)
    → IsSortedBy less fares
    → IsSortedBy less (insert_fare less f fares)
unfolding insert_fare
insert-IsSortedBy less order f [] h = (tt, tt)
insert-IsSortedBy less order f (x ∷ fares) h = elim (Bool-cases (less x f)) [
  | inl q ↦ rw q (
    All-of (λ (g : Fare). less g x ≡ false) (insert_fare less f fares)
        (λ g m. elim (mem_insert less f g fares m) [
          | Memᴰ.head e ↦ rw e (order.asym x f q)
          | Memᴰ.tail u ↦ All-at (λ (g : Fare). less g x ≡ false) fares h.0 u
        ]),
    insert-IsSortedBy less order f fares h.1,
  )
  | inr q ↦ rw q (
    (
      q,
      All-of (λ (g : Fare). less g f ≡ false) fares
          (λ g m. order.trans f x g q (All-at (λ (g : Fare). less g x ≡ false) fares h.0 m)),
    ),
    h,
  )
]

sort-same :
    (less : Fare → Fare → Bool) (fares : List Fare) (f : Fare)
    → Memᴰ f (sort_fares less fares) ↔ Memᴰ f fares
unfolding sort_fares
sort-same less [] f = (λ m. m, λ m. m)
sort-same less (x ∷ fares) f = (
  λ m. elim (mem_insert less x f (sort_fares less fares) m) [
    | Memᴰ.head e ↦ Memᴰ.head e
    | Memᴰ.tail u ↦ Memᴰ.tail ((sort-same less fares f).0 u)
  ],
  λ m. insert_mem less x f (sort_fares less fares) (elim m [
    | Memᴰ.head e ↦ Memᴰ.head e
    | Memᴰ.tail u ↦ Memᴰ.tail ((sort-same less fares f).1 u)
  ]),
)

sort-IsSortedBy :
    (less : Fare → Fare → Bool) (order : IsOrder less) (fares : List Fare)
    → IsSortedBy less (sort_fares less fares)
unfolding sort_fares
sort-IsSortedBy less order [] = tt
sort-IsSortedBy less order (x ∷ fares) =
    insert-IsSortedBy less order x (sort_fares less fares) (sort-IsSortedBy less order fares)

pub sort_fares-SortsSlices : SortsSlices sort_fares
sort_fares-SortsSlices = record {
  same = sort-same;
  sorted = λ less fares order. sort-IsSortedBy less order fares;
}
