-- ===== src/Cache/Keys.antt =====
-- The keys of the fares, and when two of them are equal.
use flight_circle_search.Base.{◌≡◌, List, [], ◌∷◌, ◌++◌, Bytes, length, arith, codes, refl}
use flight_circle_search.Cache.{fare_key}

append_injective {ℓ} :
    {A : Type ℓ} (xs ys : List A) {us vs : List A}
    → length xs ≡ length ys
    → xs ++ us ≡ ys ++ vs
    → (xs ≡ ys) × (us ≡ vs)
append_injective [] [] h e = (refl, e)
append_injective [] (y ∷ ys) h e = ground arith
append_injective (x ∷ xs) [] h e = ground arith
append_injective (x ∷ xs) (y ∷ ys) h e =
    let (same, left) = append_injective xs ys (omega arith) cc in (cc, left)

-- Codes of the same length and dates of any length give the same key only if they are the same.
pub fare_key_injective :
    (origin origin' dest dest' date date' : Bytes)
    → length origin ≡ length origin'
    → length dest ≡ length dest'
    → fare_key origin dest date ≡ fare_key origin' dest' date'
    → (origin ≡ origin') × (dest ≡ dest') × (date ≡ date')
unfolding fare_key
fare_key_injective origin origin' dest dest' date date' h k e =
    let (_, e1) = append_injective (codes "fare:") (codes "fare:") refl e in
    let (same_origin, e2) = append_injective origin origin' h e1 in
    let (_, e3) = append_injective (codes ":") (codes ":") refl e2 in
    let (same_dest, e4) = append_injective dest dest' k e3 in
    let (_, same_date) = append_injective (codes ":") (codes ":") refl e4 in
    (same_origin, same_dest, same_date)
