-- ===== src/World/Logged.antt =====
-- What an operation adds to the audit log of the world: entries, told apart by their decision and
-- their amount (agent/audit_log.py).
use mathlib.Core.List.{append-nil, append_assoc, map-append}
use nemoclaw_smb.Base.{
  ℕ, ◌+◌, ◌≡◌, ◌⊎◌, inl, inr, refl, sym, ap, ◌∙◌, String, Option, some, List, [], ◌∷◌, ◌++◌, map,
  arith,
}
use nemoclaw_smb.Base.Dict.{Dict, get, put}
use nemoclaw_smb.Base.Act.{Error, ok, err, value_error}
use nemoclaw_smb.Json.{Value, str, real}
use nemoclaw_smb.Platform.{Platform, Moment}
use nemoclaw_smb.Chain.{Entry, File, lines, seal}
use nemoclaw_smb.Audit.{append_action, action_payload}
use nemoclaw_smb.Audit.Log.{append_action_effect}
use nemoclaw_smb.World.{World, on_audit}

module _ ⦃p : Platform⦄ where
  -- the decision and the amount of an entry
  abbrev pub Fact : Type 0
  Fact = String × p.Float

  abbrev pub told : Entry → Option (Value p.Float) × Option (Value p.Float)
  told e = (get "decision" e, get "amount" e)

  abbrev pub tells : Fact → Option (Value p.Float) × Option (Value p.Float)
  tells (decision, amount) = (some (str decision), some (real amount))

  -- The log has grown by one entry for each fact, in this order.
  pub record IsLogged (facts : List Fact) (w w' : World) : Type 0 where
    pub entries : List Entry
    pub grown : lines w'.audit ≡ lines w.audit ++ map p.dump entries
    pub telling : map told entries ≡ map tells facts

  pub IsLogged-none : (w w' : World) → w'.audit ≡ w.audit → IsLogged [] w w'
  IsLogged-none w w' same = record {
    entries = [];
    grown = ap lines same ∙ sym (append-nil (lines w.audit));
    telling = refl;
  }

  pub IsLogged-then :
      {fs gs : List Fact} (w w1 w2 : World)
      → IsLogged fs w w1
      → IsLogged gs w1 w2
      → IsLogged (fs ++ gs) w w2
  IsLogged-then {fs} {gs} w w1 w2 first next = record {
    entries = first.entries ++ next.entries;
    grown =
        next.grown
        ∙ ap (λ l. l ++ map p.dump next.entries) first.grown
        ∙ append_assoc (lines w.audit) (map p.dump first.entries) (map p.dump next.entries)
        ∙ ap (λ l. lines w.audit ++ l) (sym (map-append p.dump first.entries next.entries));
    telling =
        map-append told first.entries next.entries
        ∙ ap (λ l. l ++ map told next.entries) first.telling
        ∙ ap (λ l. map tells fs ++ l) next.telling
        ∙ sym (map-append tells fs gs);
  }

  -- The sealed entry keeps the decision and the amount.
  told-seal :
      (now : Moment) (action vendor : String) (amount : p.Float) (decision actor : String)
      (metadata : Dict (Value p.Float)) (prev : String) (n : ℕ)
      → told (seal prev (action_payload now action vendor amount decision actor metadata prev n))
        ≡ tells (decision, amount)
  unfolding seal action_payload get put
  told-seal now action vendor amount decision actor metadata prev n = refl

  pub on_audit-cases :
      (action vendor : String) (amount : p.Float) (decision actor : String)
      (metadata : Dict (Value p.Float)) (w : World)
      → let done =
          on_audit (λ now. append_action now action vendor amount decision actor metadata) w in
        ((e : Entry) × (w' : World) × (done ≡ (ok e, w')) × IsLogged ((decision, amount) ∷ []) w w')
        ⊎ ((x : Error) × (w' : World) × (done ≡ (err x, w')) × IsLogged [] w w')
  on_audit-cases action vendor amount decision actor metadata w =
      let now = p.clock w.tick in
      let after : File → World = λ file. record w { tick = w.tick + 1; audit = file } in
      elim (append_action_effect now action vendor amount decision actor metadata w.audit) [
        | inl (unknown, failed) ↦
            inr (value_error, after w.audit, ground arith, IsLogged-none w (after w.audit) refl)
        | inr (known, inl (x, failed, same)) ↦
            inr (x, after w.audit, ground arith, IsLogged-none w (after w.audit) refl)
        | inr (known, inr (prev, n, head, done, written)) ↦
            let e =
              seal prev (action_payload now action vendor amount decision actor metadata prev n) in
            inl (
              e,
              after (some (lines w.audit ++ (p.dump e ∷ []))),
              ground arith,
              record {
                entries = e ∷ [];
                grown = refl;
                telling =
                    ap (λ t. t ∷ [])
                      (told-seal now action vendor amount decision actor metadata prev n);
              },
            )
      ]
