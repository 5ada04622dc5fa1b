-- ===== src/Audit.antt =====
-- The audit log (agent/audit_log.py, on the chain of `Chain`) and the earn events that
-- payments/mpp_server.py writes to the same file.
pub mod Log
use nemoclaw_smb.Base.{
  ℕ, String, Bool, not, Option, none, some, List, [], ◌∷◌, member, if◌then◌else◌,
}
use nemoclaw_smb.Base.Dict.{Dict}
use nemoclaw_smb.Base.Act.{Act, Result, ok, err, value_error}
use nemoclaw_smb.Json.{Value, int, real, str, object}
use nemoclaw_smb.Platform.{Platform, Moment}
use nemoclaw_smb.Chain.{Entry, File, append_with}

abbrev pub valid_actions : List String
valid_actions =
    "payment" ∷ "approval_request" ∷ "approval_grant" ∷ "access_change" ∷ "vendor_switch" ∷ []

module _ ⦃p : Platform⦄ where
  open p use {Float}

  -- The dict literal of `append_action`.
  unfoldable pub action_payload :
      Moment → String → String → Float → String → String → Dict (Value Float) → String → ℕ → Entry
  action_payload now action vendor amount decision actor metadata prev seq =
      ("ts", str now.iso)
      ∷ ("seq", int seq)
      ∷ ("action", str action)
      ∷ ("vendor", str vendor)
      ∷ ("amount", real amount)
      ∷ ("decision", str decision)
      ∷ ("actor", str actor)
      ∷ ("metadata", object metadata)
      ∷ ("prev_hash", str prev)
      ∷ []

  -- An unknown action is a `ValueError`, before the file is touched.
  unfoldable pub append_action :
      Moment → String → String → Float → String → String → Dict (Value Float) → Act File Entry
  append_action now action vendor amount decision actor metadata file =
      if not (member action valid_actions)
      then (err value_error, file)
      else append_with (action_payload now action vendor amount decision actor metadata) file

  -- The dict literal of `_write_earn_event`.
  unfoldable pub earn_payload : Moment → String → ℕ → String → String → ℕ → Entry
  earn_payload now service amount_cents token_id prev seq =
      ("ts", str now.iso)
      ∷ ("seq", int seq)
      ∷ ("event", str "mpp_earn")
      ∷ ("service", str service)
      ∷ ("amount_cents", int amount_cents)
      ∷ ("token_id", str token_id)
      ∷ ("prev_hash", str prev)
      ∷ []

  unfoldable pub append_earn : Moment → String → ℕ → String → Act File Entry
  append_earn now service amount_cents token_id =
      append_with (earn_payload now service amount_cents token_id)
