-- ===== src/Json.antt =====
-- The values that `params`, `metadata`, a payload or a workflow context holds: what the source
-- types `Any` and keeps in JSON. A number stands for an int or a float.
use freaky_monkey.Base.{
  ℕ, String, Bool, true, false, none, some, List, ◌==◌, str_eq, not, if◌then◌else◌,
}
use freaky_monkey.Base.Dict.{lookup}

mutual
  pub data Value : Type 0 where
    null : Value
    bool : Bool → Value
    num : ℕ → Value
    str : String → Value
    obj : Fields → Value
    arr : Items → Value

  pub data Fields : Type 0 where
    end : Fields
    field : String → Value → Fields → Fields

  pub data Items : Type 0 where
    nil : Items
    cons : Value → Items → Items

-- A dictionary whose values are such values.
abbrev pub Params : Type 0
Params = List (String × Value)

-- `bool(value)`
abbrev pub truthy : Value → Bool
truthy null = false
truthy (bool b) = b
truthy (num n) = not (n == 0)
truthy (str s) = not (str_eq s "")
truthy (arr nil) = false
truthy (arr (cons x xs)) = true
truthy (obj end) = false
truthy (obj (field k v fs)) = true

-- `params.get(k)`, where a missing key and `None` are one
abbrev pub get : String → Params → Value
get k m = elim (lookup k m) [ none ↦ null | some v ↦ v ]

-- `a or b`
abbrev pub or_value : Value → Value → Value
or_value a b = if truthy a then a else b

-- `value is True`
abbrev pub is_bool_true : Value → Bool
is_bool_true (bool b) = b
is_bool_true _ = false
