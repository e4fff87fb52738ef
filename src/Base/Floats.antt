-- ===== src/Base/Floats.antt =====
-- Go's `float64` and `big.Float`, as far as the program uses them: an abstract type with its
-- operations, since the model has no floating-point numbers.
use defi_demo.Base.{Bool, String, Option}
use defi_demo.Base.Int.{ℤ}

pub record Floats : Type 1 where
  pub Float : Type 0
  pub of_int : ℤ → Float
  -- `new(big.Float).Quo(a, b)` of two integers, rounded to a float64.
  pub quo : ℤ → ℤ → Float
  pub mul : Float → Float → Float
  pub abs_float : Float → Float
  -- `a >= b` and `a > b`
  pub ge : Float → Float → Bool
  pub gt : Float → Float → Bool
  -- `strconv.ParseFloat(s, 64)`
  pub parse_float : String → Option Float
  -- `fmt.Sprintf("%.2f", a)`
  pub to_fixed : Float → String
