-- ===== src/Config/Hubs.antt =====
-- What is read of a list of codes.
use mathlib.Core.List.{reverse_aux}
use flight_circle_search.Config.{split, nonempty, parse_hubs}
use flight_circle_search.Base.{
  ℕ, zero, suc, ◌≡◌, ◌≢◌, ◌≤◌, ◌<◌, refl, ap, ◌∙◌, Bool, true, false, ◌&&◌, ◌||◌, List, [], ◌∷◌,
  ◌++◌, map, reverse, reverse-reverse, Bytes, nat_eq, leb, All, has_prefix, ahead, strip,
  trim_space, white_space, arith, replicate, All-append, length,
}

-- A visible ASCII character other than the comma.
abbrev pub IsPlain : ℕ → Type 0
IsPlain b = (33 ≤ b) × (b < 127) × (b ≢ 44)

-- The first bytes are not of visible ASCII characters.
abbrev are_far : List Bytes → Bool
are_far [] = true
are_far ([] ∷ cs) = false
are_far ((k ∷ c) ∷ cs) = (leb k 32 || leb 127 k) && are_far cs

ahead_plain :
    (cs : List Bytes) (b : ℕ) (s : Bytes) → are_far cs ≡ true → IsPlain b → ahead cs (b ∷ s) ≡ 0
unfolding ahead has_prefix
ahead_plain [] b s h p = refl
ahead_plain ([] ∷ cs) b s h p = ground arith
ahead_plain ((k ∷ c) ∷ cs) b s h (low, high, n) = ground (arith, ahead_plain cs b s)

strip_plain : (cs : List Bytes) (s : Bytes) → are_far cs ≡ true → All IsPlain s → strip cs 0 s ≡ s
unfolding strip
strip_plain cs [] h p = refl
strip_plain cs (b ∷ s) h (p, ps) = rw (strip, ahead_plain cs b s h p) refl

strip_spaces :
    (n : ℕ) (s : Bytes) → strip white_space 0 (replicate n 32 ++ s) ≡ strip white_space 0 s
unfolding strip ahead has_prefix
strip_spaces zero s = refl
strip_spaces (suc n) s = strip_spaces n s

IsPlain-reverse_aux :
    (xs ys : Bytes) → All IsPlain xs → All IsPlain ys → All IsPlain (reverse_aux xs ys)
IsPlain-reverse_aux [] ys h k = k
IsPlain-reverse_aux (x ∷ xs) ys (h, hs) k = IsPlain-reverse_aux xs (x ∷ ys) hs (h, k)

trim_plain : (n : ℕ) (s : Bytes) → All IsPlain s → trim_space (replicate n 32 ++ s) ≡ s
unfolding trim_space
trim_plain n s p =
    ap (λ t. reverse (strip (map reverse white_space) 0 (reverse t)))
      (strip_spaces n s ∙ strip_plain white_space s refl p)
    ∙ ap reverse
        (strip_plain (map reverse white_space) (reverse s) refl (IsPlain-reverse_aux s [] p tt))
    ∙ reverse-reverse s

abbrev IsUncut : Bytes → Type 0
IsUncut = All (λ b. b ≢ 44)

IsUncut-plain : (s : Bytes) → All IsPlain s → IsUncut s
IsUncut-plain [] h = tt
IsUncut-plain (b ∷ s) ((low, high, n), hs) = (n, IsUncut-plain s hs)

IsUncut-spaces : (n : ℕ) → IsUncut (replicate n 32)
IsUncut-spaces zero = tt
IsUncut-spaces (suc n) = ((λ e. omega arith), IsUncut-spaces n)

split_last : (s : Bytes) → IsUncut s → split s ≡ s ∷ []
unfolding split
split_last [] h = refl
split_last (b ∷ s) (n, h) = ground (arith, split_last s h)

split_part : (s rest : Bytes) → IsUncut s → split (s ++ 44 ∷ rest) ≡ s ∷ split rest
unfolding split
split_part [] rest h = refl
split_part (b ∷ s) rest (n, h) = ground (arith, split_part s rest h)

-- Codes with spaces in front, between commas.
abbrev pub joined : ℕ → Bytes → List (ℕ × Bytes) → Bytes
joined n code [] = replicate n 32 ++ code
joined n code ((m, next) ∷ rest) = (replicate n 32 ++ code) ++ 44 ∷ joined m next rest

-- A code is not empty, and of visible ASCII characters other than the comma.
abbrev pub IsCode : Bytes → Type 0
IsCode code = (length code ≢ 0) × All IsPlain code

parse_parts : (s : Bytes) → parse_hubs s ≡ nonempty trim_space (split s)
unfolding parse_hubs trim_space split nonempty strip
parse_parts [] = refl
parse_parts (b ∷ s) = refl

IsUncut-padded : (n : ℕ) (code : Bytes) → All IsPlain code → IsUncut (replicate n 32 ++ code)
IsUncut-padded n code h =
    All-append (λ b. b ≢ 44) (replicate n 32) code (IsUncut-spaces n) (IsUncut-plain code h)

nonempty_code :
    (n : ℕ) (code : Bytes) (parts : List Bytes)
    → IsCode code
    → nonempty trim_space ((replicate n 32 ++ code) ∷ parts) ≡ code ∷ nonempty trim_space parts
unfolding nonempty
nonempty_code n code parts (long, p) = rw (trim_plain n code p) (ground arith)

parts_of_joined :
    (n : ℕ) (code : Bytes) (rest : List (ℕ × Bytes))
    → IsCode code
    → All (λ (x : ℕ × Bytes). IsCode x.1) rest
    → nonempty trim_space (split (joined n code rest)) ≡ code ∷ map (λ x. x.1) rest
unfolding nonempty
parts_of_joined n code [] h hs =
    ap (nonempty trim_space) (split_last (replicate n 32 ++ code) (IsUncut-padded n code h.1))
    ∙ nonempty_code n code [] h
parts_of_joined n code ((m, next) ∷ rest) h (k, ks) =
    ap (nonempty trim_space)
      (split_part (replicate n 32 ++ code) (joined m next rest) (IsUncut-padded n code h.1))
    ∙ nonempty_code n code (split (joined m next rest)) h
    ∙ ap (λ cs. code ∷ cs) (parts_of_joined m next rest k ks)

-- A list of codes, none of them empty and each of visible ASCII characters other than the comma, that is written with commas between them and any number of spaces in front of each reads back as these codes.
pub parse_hubs-joined :
    (n : ℕ) (code : Bytes) (rest : List (ℕ × Bytes))
    → IsCode code
    → All (λ (x : ℕ × Bytes). IsCode x.1) rest
    → parse_hubs (joined n code rest) ≡ code ∷ map (λ x. x.1) rest
parse_hubs-joined n code rest h hs =
    parse_parts (joined n code rest) ∙ parts_of_joined n code rest h hs
