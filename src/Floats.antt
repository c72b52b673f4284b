-- ===== src/Floats.antt =====
-- float64 and the functions of package math: there are no floating-point numbers here, so they are
-- a parameter. No law of the operations is assumed.
use flight_circle_search.Base.{ℕ, Bool}

pub record Floats : Type 1 where
  pub Float : Type 0
  pub lt : Float → Float → Bool
  pub le : Float → Float → Bool
  pub add : Float → Float → Float
  pub sub : Float → Float → Float
  pub mul : Float → Float → Float
  pub div : Float → Float → Float
  pub neg : Float → Float
  pub of_ℕ : ℕ → Float
  pub pi : Float
  pub sin : Float → Float
  pub cos : Float → Float
  pub sqrt : Float → Float
  pub atan2 : Float → Float → Float
  -- `math.Round` followed by `int(…)`
  pub round : Float → ℕ
