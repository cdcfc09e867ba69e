-- ===== src/Json.antt =====
-- The JSON columns of the database (models/creation_task.py: `payload_json`, `result_json`,
-- `resume_cursor_json`) and the dict operations that the services use on them.
-- A float is read as a whole number of millionths, the precision to which costs are rounded.
pub mod Merge
use ai_jin_shu.Common.{
  ℕ, ◌*◌, ◌/◌, ◌+◌, ◌-◌, Bool, true, false, not, Option, none, some, String, str_eq, ◌==◌,
  if◌then◌else◌,
}
use ai_jin_shu.Common.Int.{ℤ, pos, negsuc}

mutual
  pub data Json : Type 0 where
    null : Json
    bool : Bool → Json
    num : ℤ → Json
    real : ℤ → Json
    text : String → Json
    arr : Items → Json
    obj : Fields → Json

  pub data Items : Type 0 where
    nil : Items
    cons : Json → Items → Items

  pub data Fields : Type 0 where
    end : Fields
    field : String → Json → Fields → Fields

-- `d.get(k)`: a missing key reads as None.
unfoldable pub get : String → Fields → Json
get k end = null
get k (field j v d) = let rest = get k d in if str_eq j k then v else rest

-- `d[k] = v`
unfoldable pub set_key : String → Json → Fields → Fields
set_key k v end = field k v end
set_key k v (field j w d) =
    let rest = set_key k v d in if str_eq j k then field j v d else field j w rest

-- `d.pop(k, None)`
unfoldable pub pop : String → Fields → Fields
pop k end = end
pop k (field j w d) = let rest = pop k d in if str_eq j k then rest else field j w rest

-- `bool(v)`
abbrev pub truthy : Json → Bool
truthy null = false
truthy (bool b) = b
truthy (num (pos n)) = not (n == 0)
truthy (num (negsuc n)) = true
truthy (real (pos n)) = not (n == 0)
truthy (real (negsuc n)) = true
truthy (text s) = not (str_eq s "")
truthy (arr nil) = false
truthy (arr (cons v vs)) = true
truthy (obj end) = false
truthy (obj (field k v d)) = true

-- `v or w`
abbrev pub or_value : Json → Json → Json
or_value v w = if truthy v then v else w

abbrev pub is_null : Json → Bool
is_null null = true
is_null v = false

-- `dict(v) if isinstance(v, dict) else {}`
abbrev pub as_dict : Json → Fields
as_dict (obj d) = d
as_dict v = end

-- What Python's `int` and `float` make of a text; a text that they refuse is `none`.
pub record Numerals : Type 0 where
  pub int_of : String → Option ℤ
  pub float_of : String → Option ℤ

-- `int(x)` cuts a float towards zero.
abbrev pub trunc : ℤ → ℤ
trunc (pos n) = pos (n / 1000000)
trunc (negsuc n) = let q = (n + 1) / 1000000 in if q == 0 then pos 0 else negsuc (q - 1)

abbrev pub scale : ℤ → ℤ
scale (pos n) = pos (n * 1000000)
scale (negsuc n) = negsuc (n * 1000000 + 999999)

module _ (py : Numerals) where
  -- `int(v)`; `none` is a TypeError or a ValueError.
  abbrev pub to_int : Json → Option ℤ
  to_int (bool true) = some (pos 1)
  to_int (bool false) = some (pos 0)
  to_int (num z) = some z
  to_int (real z) = some (trunc z)
  to_int (text s) = py.int_of s
  to_int v = none

  -- `float(v)`
  abbrev pub to_float : Json → Option ℤ
  to_float (bool true) = some (pos 1000000)
  to_float (bool false) = some (pos 0)
  to_float (num z) = some (scale z)
  to_float (real z) = some z
  to_float (text s) = py.float_of s
  to_float v = none

  -- `int(v or 0)` and `float(v or 0.0)`
  abbrev pub int_or_zero : Json → Option ℤ
  int_or_zero v = if truthy v then to_int v else some (pos 0)

  abbrev pub float_or_zero : Json → Option ℤ
  float_or_zero v = if truthy v then to_float v else some (pos 0)
