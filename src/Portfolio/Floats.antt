-- ===== src/Portfolio/Floats.antt =====
-- What src/aegisrun/portfolio/strategy_dsl.py uses of Python's `float`. The operations are the
-- interpreter's, so they are fields of a record.
use equi_seek.Prelude.{ℕ, Bool, Option}

pub record Floats : Type 1 where
  pub Number : Type 0
  -- `float(n)`; `none` stands for `OverflowError`
  pub of_int : (negative : Bool) → ℕ → Option Number
  pub of_bits : ℕ → Number
  pub number : ℕ → Number
  pub le : Number → Number → Bool
  pub lt : Number → Number → Bool
  pub plus : Number → Number → Number
  pub times : Number → Number → Number
  -- `none` stands for `ZeroDivisionError`
  pub over : Number → Number → Option Number
  -- `round(x, 4)`
  pub round : Number → Number
