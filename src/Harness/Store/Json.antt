-- ===== src/Harness/Store/Json.antt =====
-- What src/aegisrun/harness/events.py uses of the interpreter: `json.dumps` with sorted keys and
-- without NaN, `json.loads`, and `str` and `int` of values that are no text and no integer.
use equi_seek.Prelude.{
  ℕ, String, ◌==◌, ◌≡◌, ◌<◌, Bool, false, Option, none, some, [], ◌∷◌, if◌then◌else◌, refl, ap,
}
use mathlib.Core.Option
use equi_seek.Dict.{Dict}
use equi_seek.Data.Json.{Value, Fields}
use equi_seek.Harness.Checked.{Checked, ok}

-- `value.get(key)` of a decoded object
unfoldable pub get : String → Fields → Option Value
get k (Fields.field key value rest) = if key == k then some value else get k rest
get k Fields.end = none

-- a dict as the fields of an object, and back
unfoldable pub fields_of : Dict Value → Fields
fields_of [] = Fields.end
fields_of ((k, v) ∷ d) = Fields.field k v (fields_of d)

unfoldable pub dict_of : Fields → Dict Value
dict_of Fields.end = []
dict_of (Fields.field k v rest) = (k, v) ∷ dict_of rest

pub fields_of-dict_of : (fs : Fields) → fields_of (dict_of fs) ≡ fs
unfolding fields_of dict_of
fields_of-dict_of Fields.end = refl
fields_of-dict_of (Fields.field k v rest) = ap (Fields.field k v) (fields_of-dict_of rest)

pub record Interpreter : Type 1 where
  pub Text : Type 0
  pub Bytes : Type 0
  -- `none` stands for `TypeError` and `ValueError`
  pub dumps : Value → Option Text
  -- `none` stands for `JSONDecodeError`
  pub loads : Text → Option Value
  -- `none` stands for `UnicodeEncodeError`
  pub encode : Text → Option Bytes
  -- `none` stands for `UnicodeDecodeError`
  pub decode : Bytes → Option Text
  pub size : Bytes → ℕ
  -- the bytes one after the other
  pub joined : Bytes → Bytes → Bytes
  pub str : Value → String
  -- a sign and a size; the owner of a violation is the class of the exception
  pub int : Value → Checked (Bool × ℕ)

-- What the store relies on: reading what was written gives the value back with its keys sorted at each
-- level, `canonical` here, and a value with sorted keys is written as before.
pub record JsonLaws (I : Interpreter) : Type 0 where
  pub canonical : Value → Value
  pub canonical_fields : Fields → Fields
  pub loads_dumps : (v : Value) (t : I.Text) → I.dumps v ≡ some t → I.loads t ≡ some (canonical v)
  pub dumps_canonical :
      (v : Value) (t : I.Text) → I.dumps v ≡ some t → I.dumps (canonical v) ≡ some t
  pub decode_encode : (t : I.Text) (b : I.Bytes) → I.encode t ≡ some b → I.decode b ≡ some t
  pub encoded_size :
      (v : Value) (t : I.Text) (b : I.Bytes)
      → I.dumps v ≡ some t
      → I.encode t ≡ some b
      → 0 < I.size b
  pub canonical_str : (s : String) → canonical (Value.str s) ≡ Value.str s
  pub canonical_int :
      (negative : Bool) (n : ℕ) → canonical (Value.int negative n) ≡ Value.int negative n
  pub canonical_obj : (fs : Fields) → canonical (Value.obj fs) ≡ Value.obj (canonical_fields fs)
  pub get_canonical :
      (k : String) (fs : Fields) → get k (canonical_fields fs) ≡ Option.map canonical (get k fs)
  pub canonical_canonical : (v : Value) → canonical (canonical v) ≡ canonical v
  pub str_str : (s : String) → I.str (Value.str s) ≡ s
  pub int_int : (n : ℕ) → I.int (Value.int false n) ≡ ok (false, n)
