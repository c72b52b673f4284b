-- ===== src/Base/Space.antt =====
-- The white space around a text (`strings.TrimSpace`).
use Prim.Native.Nat.{ℕ, zero, suc, ◌-◌}
use mathlib.Core.List.{List, [], ◌∷◌, map, reverse}
use flight_circle_search.Base.Tests.{nat_eq, ◌==◌, if◌then◌else◌}
use flight_circle_search.Base.Lists.{length}
use flight_circle_search.Base.Text.{Bytes, has_prefix}

-- The characters that are white space in Unicode, in UTF-8.
abbrev pub white_space : List Bytes
white_space =
    (9 ∷ [])
    ∷ (10 ∷ [])
    ∷ (11 ∷ [])
    ∷ (12 ∷ [])
    ∷ (13 ∷ [])
    ∷ (32 ∷ [])
    ∷ (194 ∷ 133 ∷ [])
    ∷ (194 ∷ 160 ∷ [])
    ∷ (225 ∷ 154 ∷ 128 ∷ [])
    ∷ (226 ∷ 128 ∷ 128 ∷ [])
    ∷ (226 ∷ 128 ∷ 129 ∷ [])
    ∷ (226 ∷ 128 ∷ 130 ∷ [])
    ∷ (226 ∷ 128 ∷ 131 ∷ [])
    ∷ (226 ∷ 128 ∷ 132 ∷ [])
    ∷ (226 ∷ 128 ∷ 133 ∷ [])
    ∷ (226 ∷ 128 ∷ 134 ∷ [])
    ∷ (226 ∷ 128 ∷ 135 ∷ [])
    ∷ (226 ∷ 128 ∷ 136 ∷ [])
    ∷ (226 ∷ 128 ∷ 137 ∷ [])
    ∷ (226 ∷ 128 ∷ 138 ∷ [])
    ∷ (226 ∷ 128 ∷ 168 ∷ [])
    ∷ (226 ∷ 128 ∷ 169 ∷ [])
    ∷ (226 ∷ 128 ∷ 175 ∷ [])
    ∷ (226 ∷ 129 ∷ 159 ∷ [])
    ∷ (227 ∷ 128 ∷ 128 ∷ [])
    ∷ []

-- How many bytes the first of these characters that stands in front takes, or 0.
unfoldable pub ahead : List Bytes → Bytes → ℕ
unfolding has_prefix
ahead [] s = 0
ahead (c ∷ cs) s = let rest = ahead cs s in if has_prefix s c then length c else rest

-- What is left without these characters in front; `skip` bytes belong to one that was seen.
unfoldable pub strip : List Bytes → ℕ → Bytes → Bytes
unfolding ahead
strip cs skip [] = []
strip cs (suc skip) (b ∷ bs) = strip cs skip bs
strip cs zero (b ∷ bs) =
    let n = ahead cs (b ∷ bs) in let rest = strip cs (n - 1) bs in if n == 0 then b ∷ bs else rest

-- `strings.TrimSpace`
unfoldable pub trim_space : Bytes → Bytes
unfolding strip
trim_space s = reverse (strip (map reverse white_space) 0 (reverse (strip white_space 0 s)))
