-- ===== src/Platform/Values.antt =====
-- JSON values as Python reads them: their truth, the items of an object.
use nemoclaw_smb.Base.{
  ◌==◌, ◌||◌, String, Bool, true, false, not, Option, none, some, str_eq, if◌then◌else◌,
}
use nemoclaw_smb.Json.{Value, Fields, null, bool, int, real, str, arr, obj, nil, cons, end, field}
use nemoclaw_smb.Platform.{Platform}

module _ ⦃p : Platform⦄ where
  open p use {Float}

  -- whether Python takes a value for true
  abbrev pub truthy : Value Float → Bool
  truthy null = false
  truthy (bool b) = b
  truthy (int n) = not (n == 0)
  truthy (real x) = p.lt x (p.of_ℕ 0) || p.lt (p.of_ℕ 0) x
  truthy (str s) = not (str_eq s "")
  truthy (arr nil) = false
  truthy (arr (cons _ _)) = true
  truthy (obj end) = false
  truthy (obj (field _ _ _)) = true

  abbrev pub value_or : Value Float → Option (Value Float) → Value Float
  value_or other none = other
  value_or other (some v) = v

  -- `d.get(key)` of an object
  abbrev pub field_of : String → Fields Float → Option (Value Float)
  field_of key end = none
  field_of key (field k v rest) = if str_eq k key then some v else field_of key rest
