-- ===== src/Interactions/Recent.antt =====
-- What `read_interactions` returns (agent/interactions_log.py).
use nemoclaw_smb.Base.{
  zero, suc, ◌-◌, ◌≡◌, String, true, false, Option, List, [], ◌∷◌, ◌++◌, length, if◌then◌else◌,
}
use nemoclaw_smb.Base.Integers.{ℤ, pos, negsuc}
use nemoclaw_smb.Base.Members.{Any}
use nemoclaw_smb.Base.Dict.{get}
use nemoclaw_smb.Base.Act.{Result, ok, err}
use nemoclaw_smb.Platform.{Platform, entry, not_object}
use nemoclaw_smb.Chain.{Entry}
use nemoclaw_smb.Interactions.{passes}

module _ ⦃p : Platform⦄ where
  -- The entries of a file, in its order.
  abbrev pub entries_of : List p.Line → List Entry
  entries_of [] = []
  entries_of (l ∷ ls) =
      let rest = entries_of ls in
      elim (p.is_blank l) [
        | true ↦ rest
        | false ↦ elim (p.load l) [ entry e ↦ e ∷ rest | _ ↦ rest ]
      ]

  -- Those that both filters let through.
  abbrev pub wanted : Option String → Option String → List Entry → List Entry
  wanted sponsor segment [] = []
  wanted sponsor segment (e ∷ es) =
      let rest = wanted sponsor segment es in
      if passes sponsor (get "sponsor" e)
      then if passes segment (get "segment" e) then e ∷ rest else rest
      else rest

  -- A line that is neither blank nor an object.
  abbrev pub IsForeign : p.Line → Type 0
  IsForeign l = (p.is_blank l ≡ false) × (p.load l ≡ not_object)

  -- The last entries of a list: all for the limit 0, otherwise as many as the limit says, and for a
  -- limit below 0 all but so many of the first.
  abbrev pub IsNewest : ℤ → List Entry → List Entry → Type 0
  IsNewest (pos zero) all es = all ≡ es
  IsNewest (pos (suc n)) all es =
      (older : List Entry) × (all ≡ older ++ es) × (length older ≡ length all - suc n)
  IsNewest (negsuc k) all es =
      (older : List Entry) × (all ≡ older ++ es) × (length es ≡ length all - suc k)

  abbrev pub IsRecent :
      ℤ → Option String → Option String → List p.Line → Result (List Entry) → Type 0
  IsRecent limit sponsor segment ls (ok es) =
      IsNewest limit (wanted sponsor segment (entries_of ls)) es
  IsRecent limit sponsor segment ls (err x) = Any IsForeign ls

  abbrev IsMatched : Option String → Option String → List p.Line → Result (List Entry) → Type 0
  IsMatched sponsor segment ls (ok es) = es ≡ wanted sponsor segment (entries_of ls)
  IsMatched sponsor segment ls (err x) = Any IsForeign ls
