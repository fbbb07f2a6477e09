-- ===== src/Data/Json.antt =====
-- The values that cross the program's interfaces as JSON: `dict[str, Any]`, `list[Any]` and scalars.
-- An integer is a sign and a size; a float is kept by its bit pattern and never computed with.
use equi_seek.Prelude.{ℕ, String, Bool}

mutual
  pub data Value : Type 0 where
    str : String → Value
    obj : Fields → Value
    arr : Items → Value
    int : (negative : Bool) → ℕ → Value
    float : (bits : ℕ) → Value
    bool : Bool → Value
    null : Value

  pub data Fields : Type 0 where
    field : String → Value → Fields → Fields
    end : Fields

  pub data Items : Type 0 where
    nil : Items
    cons : Value → Items → Items
