-- ===== src/Earn/Served.antt =====
-- What an endpoint gives for what (payments/mpp_server.py).
use nemoclaw_smb.Base.{
  ℕ, ◌+◌, ◌≡◌, inl, inr, refl, sym, String, true, false, Option, none, some, arith, Bool-cases,
  Option-cases,
}
use nemoclaw_smb.Base.Dict.{Dict}
use mathlib.Core.Path.{subst}
use nemoclaw_smb.Base.Act.{Act, Result, Result-cases, ok, err}
use nemoclaw_smb.Json.{Value}
use nemoclaw_smb.Platform.{Platform}
use nemoclaw_smb.Audit.{append_earn}
use nemoclaw_smb.Chain.{Entry}
use nemoclaw_smb.World.{World}
use nemoclaw_smb.Earn.{
  Answer, c1_authorize, endpoint, forbidden, note_earning, paid_token, payment_required, serve,
  served, write_earn_event,
}

module _ ⦃p : Platform⦄ where
  -- The skill has run in the world `w1`, and its earning is the next entry of the audit log.
  pub record IsEarned (service : String) (cents : ℕ) (skill : Act World (Dict (Value p.Float)))
      (token : String) (w w' : World) (result : Dict (Value p.Float)) (entry : Entry) : Type 0 where
    pub allowed : (c1_authorize w.tick service).allowed ≡ true
    pub after_skill : World
    pub ran : skill (record w { tick = w.tick + 2 }) ≡ (ok result, after_skill)
    pub earned :
        append_earn (p.clock after_skill.tick) service cents token after_skill.audit
        ≡ (ok entry, w'.audit)

  -- What each answer says of the call.
  abbrev pub IsAnswered :
      String
      → ℕ
      → Act World (Dict (Value p.Float))
      → Option String
      → World
      → Answer
      → World
      → Type 0
  IsAnswered service cents skill header w (payment_required n) w' =
      (n ≡ cents) × (paid_token header ≡ none) × (w' ≡ w)
  IsAnswered service cents skill header w (forbidden reason) w' =
      ((c1_authorize w.tick service).allowed ≡ false) × (w'.audit ≡ w.audit)
  IsAnswered service cents skill header w (served n result entry) w' =
      (n ≡ cents)
      × ((token : String) × (paid_token header ≡ some token)
          × IsEarned service cents skill token w w' result entry)

  abbrev IsReply :
      String
      → ℕ
      → Act World (Dict (Value p.Float))
      → Option String
      → World
      → Result Answer × World
      → Type 0
  IsReply service cents skill header w (ok a, w') = IsAnswered service cents skill header w a w'
  IsReply service cents skill header w (err x, w') = Unit

  endpoint-IsReply :
      (service : String) (cents : ℕ) (skill : Act World (Dict (Value p.Float)))
      (header : Option String) (w : World)
      → IsReply service cents skill header w (endpoint service cents skill header w)
  unfolding endpoint serve write_earn_event
  endpoint-IsReply service cents skill header w =
      let step : (r : Result Answer × World)
          → endpoint service cents skill header w ≡ r
          → IsReply service cents skill header w r
          → IsReply service cents skill header w (endpoint service cents skill header w) =
        λ r same says. subst (IsReply service cents skill header w) (sym same) says in
      let w1 : World = record w { tick = w.tick + 2 } in
      let decision = c1_authorize w.tick service in
      elim (Option-cases (paid_token header)) [
        | inl e ↦ step (ok (payment_required cents), w) (ground arith) (refl, e, refl)
        | inr (token, e) ↦ elim (Bool-cases decision.allowed) [
          | inr denied ↦ step (ok (forbidden decision.reason), w1) (ground arith) (denied, refl)
          | inl allowed ↦ elim (Result-cases (skill w1)) [
            | inr (x, w2, failed) ↦ step (err x, w2) (ground arith) tt
            | inl (result, w2, ran) ↦
                elim (Result-cases (append_earn (p.clock w2.tick) service cents token w2.audit)) [
                  | inr (x, file, failed) ↦
                      step (err x, record w2 { tick = w2.tick + 1; audit = file }) (ground arith) tt
                  | inl (entry, file, done) ↦
                      step
                        (
                          ok (served cents result entry),
                          note_earning service cents
                              (record w2 { tick = w2.tick + 1; audit = file }),
                        )
                        (ground arith)
                        (
                          refl,
                          (
                            token,
                            e,
                            record {
                              allowed = allowed;
                              after_skill = w2;
                              ran = ran;
                              earned = done;
                            },
                          ),
                        )
                ]
          ]
        ]
      ]

  -- Whatever an endpoint answers: payment is required, with its price, only for a call without a
  -- valid token, and then nothing has changed; a call is forbidden only where the platform's
  -- identity is denied, and then the audit log has not changed; and a call is served only with a
  -- valid token, where the identity is allowed and the skill has returned the result, and then the
  -- entry of the answer is what was appended, as an earning at the price of the endpoint, to the
  -- audit log that the skill left.
  pub endpoint_lem :
      (service : String) (cents : ℕ) (skill : Act World (Dict (Value p.Float)))
      (header : Option String) (w : World) {a : Answer} {w' : World}
      → endpoint service cents skill header w ≡ (ok a, w')
      → IsAnswered service cents skill header w a w'
  endpoint_lem service cents skill header w {a} {w'} h =
      subst (IsReply service cents skill header w) h (endpoint-IsReply service cents skill header w)
