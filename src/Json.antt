-- ===== src/Json.antt =====
-- JSON values as the logs hold them. The numbers of the program's own counters are naturals; any
-- other number is a float of the platform.
use nemoclaw_smb.Base.{ℕ, String, Bool, List, [], ◌∷◌}
use nemoclaw_smb.Base.Dict.{Dict}

mutual
  pub data Value (F : Type 0) : Type 0 where
    null : Value F
    bool : Bool → Value F
    int : ℕ → Value F
    real : F → Value F
    str : String → Value F
    arr : Items F → Value F
    obj : Fields F → Value F

  pub data Items (F : Type 0) : Type 0 where
    nil : Items F
    cons : Value F → Items F → Items F

  pub data Fields (F : Type 0) : Type 0 where
    end : Fields F
    field : String → Value F → Fields F → Fields F

-- A nested object from its items.
abbrev pub fields_of : {F : Type 0} → Dict (Value F) → Fields F
fields_of [] = end
fields_of ((k, v) ∷ d) = field k v (fields_of d)

abbrev pub object : {F : Type 0} → Dict (Value F) → Value F
object d = obj (fields_of d)

abbrev pub items_of : {F : Type 0} → List String → Items F
items_of [] = nil
items_of (s ∷ r) = cons (str s) (items_of r)

abbrev pub texts : {F : Type 0} → List String → Value F
texts l = arr (items_of l)
