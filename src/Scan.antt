-- ===== src/Scan.antt =====
-- The scan of a skill's arguments for unsafe texts (agent/nemoclaw_harness.py).
use nemoclaw_smb.Base.{String, Option, none, some, List, [], ◌∷◌, has_part, if◌then◌else◌}
use nemoclaw_smb.Base.Dict.{Dict}
use nemoclaw_smb.Json.{
  Value, null, bool, int, real, str, arr, obj, Items, nil, cons, Fields, end, field,
}

abbrev pub unsafe_patterns : List String
unsafe_patterns = "rm -rf" ∷ "DROP TABLE" ∷ "<script" ∷ "ignore previous instructions" ∷ []

abbrev pub first_some : Option String → Option String → Option String
first_some (some x) other = some x
first_some none other = other

-- the first pattern that is part of a text
unfoldable pub pattern_in : List String → String → Option String
pattern_in [] text = none
pattern_in (q ∷ qs) text = let rest = pattern_in qs text in if has_part q text then some q else rest

-- `_scan_unsafe`, in the order of `_iter_string_values`
unfoldable mutual
  pub scan_value : {F : Type 0} → Value F → Option String
  scan_value null = none
  scan_value (bool b) = none
  scan_value (int n) = none
  scan_value (real x) = none
  scan_value (str s) = pattern_in unsafe_patterns s
  scan_value (arr items) = scan_items items
  scan_value (obj fields) = scan_fields fields

  pub scan_items : {F : Type 0} → Items F → Option String
  scan_items nil = none
  scan_items (cons v items) = first_some (scan_value v) (scan_items items)

  pub scan_fields : {F : Type 0} → Fields F → Option String
  scan_fields end = none
  scan_fields (field k v fields) = first_some (scan_value v) (scan_fields fields)

unfoldable pub scan_unsafe : {F : Type 0} → Dict (Value F) → Option String
scan_unsafe [] = none
scan_unsafe ((k, v) ∷ args) = first_some (scan_value v) (scan_unsafe args)
