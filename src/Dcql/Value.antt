-- ===== src/Dcql/Value.antt =====
-- The values of type `any` that DCQL evaluation meets: decoded JSON, and the byte strings,
-- integers and texts of mdoc data elements. A map keeps the order in which it was decoded.
use eudi_dev.Base.{ℤ, Float64, Text, Bool, Option, none, some, List, [], ◌∷◌}

mutual
  pub data Value : Type 0 where
    null : Value
    bool : Bool → Value
    str : Text → Value
    num : Float64 → Value
    int : ℤ → Value
    bytes : Text → Value
    arr : Items → Value
    obj : Fields → Value

  pub data Items : Type 0 where
    nil : Items
    cons : Value → Items → Items

  pub data Fields : Type 0 where
    end : Fields
    field : Text → Value → Fields → Fields

abbrev pub items : Items → List Value
items nil = []
items (cons v vs) = v ∷ items vs

abbrev pub fields : Fields → List (Text × Value)
fields end = []
fields (field k v fs) = (k, v) ∷ fields fs

abbrev pub to_items : List Value → Items
to_items [] = nil
to_items (v ∷ vs) = cons v (to_items vs)

-- The type assertions `v.(T)` with the comma-ok form.
unfoldable pub as_object : Value → Option (List (Text × Value))
as_object (obj fs) = some (fields fs)
as_object _ = none

unfoldable pub as_array : Value → Option (List Value)
as_array (arr vs) = some (items vs)
as_array _ = none

unfoldable pub as_string : Value → Option Text
as_string (str s) = some s
as_string _ = none

unfoldable pub as_bool : Value → Option Bool
as_bool (bool b) = some b
as_bool _ = none

-- A missing key, or a value of another type, gives the zero value: `s, _ := m[k].(string)`.
abbrev pub string_or_empty : Option Value → Text
string_or_empty none = []
string_or_empty (some v) = elim (as_string v) [ none ↦ [] | some s ↦ s ]
