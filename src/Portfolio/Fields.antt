-- ===== src/Portfolio/Fields.antt =====
-- The checks on single fields in src/aegisrun/portfolio/strategy_dsl.py.
use equi_seek.Prelude.{
  ℕ, suc, String, ◌==◌, Bool, true, false, not, ◌&&◌, ◌||◌, Option, none, some, List, [], ◌∷◌, ◌++◌,
  elem, leb, if◌then◌else◌,
}
use equi_seek.Data.Json.{Value, Fields, Items}
use equi_seek.Data.Text.{strip, text_length}
use equi_seek.Portfolio.Floats.{Floats}

-- a check returns or raises: `StrategyValidationError` by the field, or another error
pub data Checked (A : Type 0) : Type 0 where
  ok : A → Checked A
  invalid : (field : String) → Checked A
  crashed : (error : String) → Checked A

infixl 5 ◌>>=◌
unfoldable pub ◌>>=◌ : {A B : Type 0} → Checked A → (A → Checked B) → Checked B
ok a >>= f = f a
invalid field >>= f = invalid field
crashed error >>= f = crashed error

unfoldable pub demand : {A : Type 0} → Bool → String → Checked A → Checked A
demand true field x = x
demand false field x = invalid field

-- `payload.get(field)`
unfoldable pub get : String → Fields → Option Value
get field (Fields.field key value rest) = if key == field then some value else get field rest
get field Fields.end = none

abbrev pub get_or : String → Value → Fields → Value
get_or field default payload = elim (get field payload) [ none ↦ default | some value ↦ value ]

-- `_reject_unknown`: every key is an allowed one
unfoldable pub all_known : Fields → List String → Bool
all_known (Fields.field key value rest) allowed = elem key allowed && all_known rest allowed
all_known Fields.end allowed = true

-- `_mapping`
unfoldable pub mapping : Value → String → Checked Fields
mapping (Value.obj fields) name = ok fields
mapping _ name = invalid name

-- `_required_string`
abbrev required_text : Option Value → String → ℕ → Checked String
required_text (some (Value.str s)) name limit =
    demand (not (strip s == "") && leb (text_length s) limit) name (ok (strip s))
required_text _ name limit = invalid name

unfoldable pub required_string : Fields → String → (max_length : ℕ) → Checked String
required_string payload name limit = required_text (get name payload) name limit

-- `normalized.append(...)` of a text that is not in the list
abbrev pub append_new : String → List String → List String
append_new text normalized = if elem text normalized then normalized else normalized ++ text ∷ []

-- the loop of `_string_list`
unfoldable pub strings_from : Items → String → List String → Checked (List String)
strings_from Items.nil name normalized = ok normalized
strings_from (Items.cons (Value.str s) items) name normalized =
    demand (not (strip s == "") && leb (text_length s) 80) name
      (strings_from items name (append_new (strip s) normalized))
strings_from (Items.cons value items) name normalized = invalid name

unfoldable pub item_count : Items → ℕ
item_count Items.nil = 0
item_count (Items.cons value items) = suc (item_count items)

-- `_string_list`
unfoldable pub string_list : Value → String → Checked (List String)
string_list (Value.arr items) name =
    demand (leb (item_count items) 100) name (strings_from items name [])
string_list _ name = invalid name

-- `_bounded_int`; a negative number is below every minimum that is asked for, and a zero has no sign
unfoldable pub bounded_int : Value → String → (minimum maximum : ℕ) → Checked ℕ
bounded_int (Value.int negative n) name minimum maximum =
    demand ((not negative || leb n 0) && leb minimum n && leb n maximum) name (ok n)
bounded_int _ name minimum maximum = invalid name

module _ (F : Floats) where
  open F use {Number, of_int, of_bits, number, le}

  abbrev pub within : Number → String → ℕ → ℕ → Checked Number
  within x name minimum maximum =
      demand (le (number minimum) x && le x (number maximum)) name (ok x)

  -- what follows the conversion
  abbrev pub checked_float : Option Number → String → ℕ → ℕ → Checked Number
  checked_float none name minimum maximum = crashed "OverflowError"
  checked_float (some x) name minimum maximum = within x name minimum maximum

  -- `_bounded_float`
  unfoldable pub bounded_float : Value → String → (minimum maximum : ℕ) → Checked Number
  bounded_float (Value.int negative n) name minimum maximum =
      checked_float (of_int negative n) name minimum maximum
  bounded_float (Value.float bits) name minimum maximum =
      checked_float (some (of_bits bits)) name minimum maximum
  bounded_float _ name minimum maximum = invalid name
