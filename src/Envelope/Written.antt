-- ===== src/Envelope/Written.antt =====
-- A signed envelope is in the audit log before it is returned (payments/envelopes.py).
use nemoclaw_smb.Base.{◌+◌, ◌≡◌, ◌⊎◌, inl, inr, refl, String, true, List, [], ◌∷◌, arith}
use nemoclaw_smb.Base.Dict.{Dict}
use nemoclaw_smb.Base.Act.{Error, ok, err, Plain-cases}
use nemoclaw_smb.Json.{Value, str, int}
use nemoclaw_smb.Platform.{Platform}
use nemoclaw_smb.World.{World}
use nemoclaw_smb.World.Logged.{Fact, IsLogged, IsLogged-none, IsLogged-then, on_audit-cases}
use nemoclaw_smb.Envelope.{
  Envelope, audit_envelope, audit_metadata, build_envelope, field_or, float_of,
  sign_stripe_envelope, verify_envelope,
}
use nemoclaw_smb.Envelope.Signing.{IsSigning}
use nemoclaw_smb.Envelope.Signed.{build_envelope_verifies}

module _ ⦃p : Platform⦄ where
  abbrev pub envelope_fact : p.Float → Fact
  envelope_fact cents = ("envelope_signed", p.div cents (p.of_ℕ 100))

  module _ (action : String) (payload : Dict (Value p.Float)) (agent_id : String)
      (scopes : List String) where
    audit_envelope-cases :
        {cents : p.Float} (e : Envelope) (w : World)
        → float_of (field_or "amount_cents" (int 0) payload) ≡ ok cents
        → let done = audit_envelope action payload agent_id scopes e w in
          ((w' : World) × ((entry : nemoclaw_smb.Chain.Entry) × (done ≡ (ok entry, w')))
            × IsLogged (envelope_fact cents ∷ []) w w')
          ⊎ ((x : Error) × (w' : World) × (done ≡ (err x, w')) × IsLogged [] w w')
    unfolding audit_envelope
    audit_envelope-cases {cents} e w amount =
        elim (on_audit-cases "payment" (p.str_value (field_or "vendor" (str action) payload))
          (p.div cents (p.of_ℕ 100)) "envelope_signed" agent_id (audit_metadata action scopes e)
          w) [
            | inl (entry, w', done, logged) ↦ inl (w', (entry, ground arith), logged)
            | inr (x, w', failed, logged) ↦ inr (x, w', ground arith, logged)
          ]

    -- Either an envelope is returned and one entry tells of it, or the log is as it was.
    pub sign_stripe_envelope-cases :
        {cents : p.Float} (w : World)
        → float_of (field_or "amount_cents" (int 0) payload) ≡ ok cents
        → let done = sign_stripe_envelope action payload agent_id scopes w in
          ((e : Envelope) × (w' : World) × (done ≡ (ok e, w'))
            × (build_envelope w.tick action payload agent_id scopes ≡ ok e)
            × IsLogged (envelope_fact cents ∷ []) w w')
          ⊎ ((x : Error) × (w' : World) × (done ≡ (err x, w')) × IsLogged [] w w')
    unfolding sign_stripe_envelope
    sign_stripe_envelope-cases {cents} w amount =
        let w1 : World = record w { tick = w.tick + 2 } in
        let here = IsLogged-none w w1 refl in
        elim (Plain-cases (build_envelope w.tick action payload agent_id scopes)) [
          | inr (x, bad) ↦ inr (x, w1, ground arith, here)
          | inl (e, built) ↦ elim (audit_envelope-cases e w1 amount) [
            | inl (w', (entry, done), logged) ↦
                inl (e, w', ground arith, built, IsLogged-then w w1 w' here logged)
            | inr (x, w', failed, logged) ↦
                inr (x, w', ground arith, IsLogged-then w w1 w' here logged)
          ]
        ]

    -- With keys and a package that work as documented, of a payload whose amount reads as a number
    -- of cents: if an envelope is returned, then it verifies, and the audit log has grown by exactly
    -- one entry, which says that an envelope was signed, over the amount in dollars. If the call
    -- raises, then nothing is added to the log.
    pub sign_stripe_envelope_lem :
        (signing : IsSigning) {cents : p.Float} (w : World)
        → float_of (field_or "amount_cents" (int 0) payload) ≡ ok cents
        → let done = sign_stripe_envelope action payload agent_id scopes w in
          ((e : Envelope) × (w' : World) × (done ≡ (ok e, w'))
            × (verify_envelope e ≡ true)
            × IsLogged (envelope_fact cents ∷ []) w w')
          ⊎ ((x : Error) × (w' : World) × (done ≡ (err x, w')) × IsLogged [] w w')
    sign_stripe_envelope_lem signing w amount = elim (sign_stripe_envelope-cases w amount) [
      | inr failed ↦ inr failed
      | inl (e, w', done, built, logged) ↦
          elim (build_envelope_verifies signing w.tick action payload agent_id scopes) [
            | inr (bad, failed) ↦ ground arith
            | inl (e', built', verified) ↦ inl (e, w', done, ground arith, logged)
          ]
    ]
