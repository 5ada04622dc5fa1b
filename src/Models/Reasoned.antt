-- ===== src/Models/Reasoned.antt =====
-- A reasoning step leaves the audit log alone.
use nemoclaw_smb.Base.{◌≡◌, inl, inr, refl, String, Bool, ◌&&◌, Bool-cases}
use nemoclaw_smb.Platform.{Platform}
use nemoclaw_smb.World.{World}
use nemoclaw_smb.Models.{nemotron_available, note_reasoning, reasoned}

module _ ⦃p : Platform⦄ where
  pub reasoned_audit :
      (op segment model : String) (live : Bool) (prompt cached : String) (w : World)
      → (reasoned op segment model live prompt cached w).1.audit ≡ w.audit
  unfolding reasoned note_reasoning
  reasoned_audit op segment model live prompt cached w =
      elim (Bool-cases (live && nemotron_available)) [
        | inl asks ↦ rw (asks, reasoned) refl
        | inr cached_only ↦ rw (cached_only, reasoned) refl
      ]
