-- ===== src/Portfolio/Symbols.antt =====
-- `canonical_symbol` of src/aegisrun/portfolio/models.py, with `normalize_stock_code` and
-- `display_stock_code` of src/aegisrun/marketdata/baostock_provider.py. The letter cases and the digits
-- of Unicode are the interpreter's.
use Prim.Native.String.{◌++◌}
use equi_seek.Prelude.{
  ℕ, String, Bool, true, not, ◌&&◌, ◌||◌, Option, none, some, nat_eq, if◌then◌else◌,
}
use equi_seek.Data.Text.{strip, text_length, starts_with, ends_with, prefix, split_dot, keep}

pub record Letters : Type 0 where
  pub lower : String → String
  pub upper : String → String
  pub casefold : String → String
  pub is_digit : ℕ → Bool

module _ (L : Letters) where
  open L use {lower, upper, is_digit}

  abbrev exchange_of : String → String
  exchange_of digits =
      if starts_with digits "5" || starts_with digits "6" || starts_with digits "9"
      then "sh"
      else "sz"

  -- `none` stands for the `ValueError`
  unfoldable pub normalize_stock_code : String → (allow_beijing : Bool) → Option String
  normalize_stock_code value allow_beijing =
      let normalized = lower (strip value) in
      let big = upper normalized in
      let digits = keep is_digit normalized in
      if (starts_with normalized "sh." || starts_with normalized "sz.")
        && nat_eq (text_length normalized) 9
      then some normalized
      else if starts_with normalized "bj." && nat_eq (text_length normalized) 9
      then (if allow_beijing then some normalized else none)
      else if ends_with big ".SH"
      then some ("sh." ++ prefix 6 big)
      else if ends_with big ".SZ"
      then some ("sz." ++ prefix 6 big)
      else if ends_with big ".BJ"
      then (if allow_beijing then some ("bj." ++ prefix 6 big) else none)
      else if not (nat_eq (text_length digits) 6)
      then none
      else if starts_with digits "4" || starts_with digits "8" || starts_with digits "9"
      then (if allow_beijing then some ("bj." ++ digits) else none)
      else some (exchange_of digits ++ "." ++ digits)

  unfoldable pub display_stock_code : String → Option String
  display_stock_code value = elim (split_dot value) [
    | none ↦ none
    | some (exchange, digits) ↦ some (digits ++ "." ++ upper exchange)
  ]

  unfoldable pub canonical_symbol : String → Option String
  canonical_symbol value = elim (normalize_stock_code value true) [
    | none ↦ none
    | some code ↦ display_stock_code code
  ]
