-- ===== src/Base/Float.antt =====
-- Go's float64, which the language's runtime provides: a type with the operations that the code
-- uses. Results that need a law of rounding state it as a hypothesis.
use mathlib.Core.Bool.{Bool}
use web_rts_nomads.Base.Int.{ℤ}

pub record Float64 : Type 1 where
  pub Float : Type 0
  pub plus : Float → Float → Float
  pub minus : Float → Float → Float
  pub times : Float → Float → Float
  pub over : Float → Float → Float
  pub less : Float → Float → Bool
  pub at_most : Float → Float → Bool
  pub of_int : ℤ → Float
  -- `int(f)`.
  pub to_int : Float → ℤ
  pub one_half : Float
