-- ===== src/Floats.antt =====
-- What the program uses of `float` and `double`. The language has no floats, so the types and the
-- conversions are a parameter; converting a `float` to `double` and back loses nothing (IEEE 754).
use clyman.Prelude.{◌≡◌}
use clyman.Prelude.{ℤ}

pub record Floats : Type 1 where
  pub Float : Type 0
  pub Double : Type 0
  pub widen : Float → Double
  pub narrow : Double → Float
  -- `static_cast<double>(n)`
  pub of_int : ℤ → Double
  pub zero_f : Float
  pub one_f : Float
  pub narrow-widen : (x : Float) → narrow (widen x) ≡ x
