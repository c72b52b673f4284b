-- ===== src/Base/Words.antt =====
-- int64, as the two's complement word that holds it.
use Prim.Native.Nat.{ℕ, ◌+◌, ◌-◌, ◌*◌, ◌%◌}
use mathlib.Core.Bool.{Bool, ◌&&◌}
use flight_circle_search.Base.Tests.{ltb, if◌then◌else◌}

-- `0 < w`
abbrev pub is_positive : ℕ → Bool
is_positive w = ltb 0 w && ltb w 9223372036854775808

-- `a < b`
abbrev pub signed_lt : ℕ → ℕ → Bool
signed_lt a b =
    ltb ((a + 9223372036854775808) % 18446744073709551616)
      ((b + 9223372036854775808) % 18446744073709551616)

-- `a * b`
abbrev pub word_mul : ℕ → ℕ → ℕ
word_mul a b = (a * b) % 18446744073709551616

-- `t.Add(d)`, for times after the origin of the clock.
abbrev pub time_add : ℕ → ℕ → ℕ
time_add t d = if ltb d 9223372036854775808 then t + d else t - (18446744073709551616 - d)
