-- ===== src/Interactions.antt =====
-- The log of calls to sponsors' services (agent/interactions_log.py): a second file with the chain of
-- `Chain`, whose functions it repeats.
pub mod Recent
use nemoclaw_smb.Base.{
  ℕ, zero, suc, ◌+◌, ◌-◌, String, Bool, true, false, not, Option, none, some, List, [], ◌∷◌, ◌==◌,
  str_eq, length, member, if◌then◌else◌,
}
use nemoclaw_smb.Base.Integers.{ℤ, pos, negsuc}
use nemoclaw_smb.Base.Dict.{Dict, get}
use nemoclaw_smb.Base.Act.{Act, Result, ok, err, value_error, type_error}
use nemoclaw_smb.Json.{Value, null, int, real, str, object}
use nemoclaw_smb.Platform.{Platform, Moment, malformed, not_object, entry}
use nemoclaw_smb.Chain.{Entry, File, append_with, holds_text}

abbrev pub sponsors : List String
sponsors = "Nous Research" ∷ "NVIDIA" ∷ "Stripe" ∷ "C1" ∷ []

module _ ⦃p : Platform⦄ where
  open p use {Float, Line}

  -- the optional arguments of a call
  pub record Details : Type 0 where
    pub model : Option String
    pub latency_ms : Option Float
    pub mode : Option String
    pub metadata : Dict (Value Float)

  abbrev pub opt_str : Option String → Value Float
  opt_str none = null
  opt_str (some s) = str s

  abbrev pub opt_real : Option Float → Value Float
  opt_real none = null
  opt_real (some x) = real x

  pub interaction_payload :
      Moment → String → String → String → String → Details → String → ℕ → Entry
  interaction_payload now sponsor op segment status d prev seq =
      ("ts", str now.iso)
      ∷ ("seq", int seq)
      ∷ ("sponsor", str sponsor)
      ∷ ("op", str op)
      ∷ ("segment", str segment)
      ∷ ("status", str status)
      ∷ ("model", opt_str d.model)
      ∷ ("latency_ms", opt_real d.latency_ms)
      ∷ ("mode", opt_str d.mode)
      ∷ ("metadata", object d.metadata)
      ∷ ("prev_hash", str prev)
      ∷ []

  pub append_interaction : Moment → String → String → String → String → Details → Act File Entry
  append_interaction now sponsor op segment status d file =
      if not (member sponsor sponsors)
      then (err value_error, file)
      else append_with (interaction_payload now sponsor op segment status d) file

  -- a filter that is absent or empty lets everything through
  abbrev pub passes : Option String → Option (Value Float) → Bool
  passes none v = true
  passes (some s) v = if str_eq s "" then true else holds_text v s

  abbrev keep : Bool → Entry → List Entry → List Entry
  keep true e es = e ∷ es
  keep false e es = es

  -- The loop of `read_interactions`; a line that is no object is taken for a fault of the file.
  unfoldable pub matching : Option String → Option String → List Line → Result (List Entry)
  matching sponsor segment [] = ok []
  matching sponsor segment (l ∷ ls) =
      let rest = matching sponsor segment ls in
      elim (p.is_blank l) [
        | true ↦ rest
        | false ↦ elim (p.load l) [
          | malformed ↦ rest
          | not_object ↦ err type_error
          | entry e ↦ elim rest [
            | err x ↦ err x
            | ok es ↦ ok (
                keep
                  (if passes sponsor (get "sponsor" e)
                    then passes segment (get "segment" e)
                    else false)
                  e es)
          ]
        ]
      ]

  abbrev pub drop : ℕ → List Entry → List Entry
  drop zero es = es
  drop (suc n) [] = []
  drop (suc n) (e ∷ es) = drop n es

  -- `out[-limit:]`, which for 0 is the whole list, and for `-k` drops the first k entries
  unfoldable pub last_n : ℤ → List Entry → List Entry
  last_n (pos limit) es = if limit == 0 then es else drop (length es - limit) es
  last_n (negsuc k) es = drop (k + 1) es

  unfoldable pub read_interactions : ℤ → Option String → Option String → File → Result (List Entry)
  read_interactions limit sponsor segment none = ok []
  read_interactions limit sponsor segment (some ls) = elim (matching sponsor segment ls) [
    | err x ↦ err x
    | ok es ↦ ok (last_n limit es)
  ]
