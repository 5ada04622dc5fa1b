-- ===== src/Portfolio/Checkout.antt =====
-- When a cleaner card is issued (acts/property_mgmt_agent.py, payments/issuing.py).
use mathlib.Core.Path.{subst}
use nemoclaw_smb.Base.{
  ℕ, ◌+◌, ◌≡◌, ◌⊎◌, inl, inr, refl, sym, ap, String, true, false, List, [], ◌∷◌, concat, arith,
  Bool-cases,
}
use nemoclaw_smb.Base.Dict.{get}
use nemoclaw_smb.Base.Act.{Result, Error, ok, err, permission_error, Plain-cases}
use nemoclaw_smb.Json.{int}
use nemoclaw_smb.Platform.{Platform}
use nemoclaw_smb.Envelope.{float_of}
use nemoclaw_smb.Envelope.Written.{envelope_fact, sign_stripe_envelope-cases}
use nemoclaw_smb.World.{World}
use nemoclaw_smb.World.Logged.{Fact, IsLogged, IsLogged-none, IsLogged-then, on_audit-cases}
use nemoclaw_smb.World.Notes.{noted, with_metadata}
use nemoclaw_smb.Money.{
  CleanerCardResult, issued_card, card_metadata, card_payload, default_amount_cents, dollars,
  issue_cleaner_card, stable_id, same_day_eod_utc,
}
use nemoclaw_smb.MockLedger.{Member}
use nemoclaw_smb.Portfolio.{card_decision, handle_checkout_event, issue_for, pick_cleaner}

module _ ⦃p : Platform⦄ where
  -- the entries of a card: the envelope, then the card
  abbrev pub card_facts : ℕ → List Fact
  card_facts cents = envelope_fact (p.of_ℕ cents) ∷ ("card_issued", dollars cents) ∷ []

  -- What a card is: for this job, capped at the amount, at the cleaners' merchants only, until the end
  -- of the day.
  pub record IsCard (job property cleaner : String) (cents : ℕ) (now : String)
      (card : CleanerCardResult) : Type 0 where
    pub job_id : card.job_id ≡ job
    pub property_id : card.property_id ≡ property
    pub cleaner_id : card.cleaner_id ≡ cleaner
    pub cap : card.amount_cap_cents ≡ cents
    pub merchants : card.mcc_list ≡ ("7349" ∷ "5251" ∷ [])
    pub expiry : card.expiry_utc ≡ same_day_eod_utc now

  issue_cleaner_card-cases :
      (job property cleaner : String) (cents : ℕ) (w : World)
      → ((card : CleanerCardResult) × (w' : World) × (issue_cleaner_card job property cleaner cents
              w
            ≡ (ok card, w'))
          × IsCard job property cleaner cents (p.clock w.tick).iso card
          × IsLogged (card_facts cents) w w')
        ⊎ ((x : Error) × (w' : World) × (issue_cleaner_card job property cleaner cents w
              ≡ (err x, w'))
            × (IsLogged [] w w' ⊎ IsLogged (envelope_fact (p.of_ℕ cents) ∷ []) w w'))
  unfolding issue_cleaner_card get float_of
  issue_cleaner_card-cases job property cleaner cents w =
      let w0 : World = record w { tick = w.tick + 1 } in
      let expiry = same_day_eod_utc (p.clock w.tick).iso in
      let card_id = stable_id "ic_" (job ∷ cleaner ∷ []) in
      let note =
        noted "Stripe" "card issue (Issuing for Agents)" "firm" "ok"
          (with_metadata (("amount_cents", int cents) ∷ [])) in
      let start = IsLogged-none w w0 refl in
      elim (sign_stripe_envelope-cases "issuing:card:create"
        (card_payload job property cleaner cents expiry) "cleaner-subagent"
        ("card:issue:cleaning" ∷ []) {cents = p.of_ℕ cents} w0 refl) [
          | inr (x, w1, failed, same) ↦
              inr (x, w1, ground arith, inl (IsLogged-then w w0 w1 start same))
          | inl (e, w1, signed, _, first) ↦
              let before = IsLogged-then w w0 w1 start first in
              elim (on_audit-cases "payment" "stripe-issuing" (dollars cents) "card_issued"
                "cleaner-subagent" (card_metadata card_id job property cleaner cents expiry) w1) [
                  | inr (x, w2, failed, same) ↦
                      inr (x, w2, ground arith, inr (IsLogged-then w w1 w2 before same))
                  | inl (entry, w2, done, next) ↦ inl (
                    issued_card job property cleaner cents expiry,
                    note w2,
                    ground arith,
                    record {
                      job_id = refl;
                      property_id = refl;
                      cleaner_id = refl;
                      cap = refl;
                      merchants = refl;
                      expiry = refl;
                    },
                    IsLogged-then w w2 (note w2) (IsLogged-then w w1 w2 before next)
                        (IsLogged-none w2 (note w2) refl),
                  )
                ]
        ]

  -- What a checkout does where the identity is allowed.
  abbrev pub IsIssuedFor : String → String → World → Result CleanerCardResult × World → Type 0
  IsIssuedFor property date w (r, w') =
      ((card : CleanerCardResult) × (m : Member) × (r ≡ ok card)
        × (pick_cleaner property ≡ ok m)
        × IsCard (concat ("job-" ∷ property ∷ "-" ∷ date ∷ [])) property m.id default_amount_cents
            (p.clock (w.tick + 2)).iso card
        × IsLogged (card_facts default_amount_cents) w w')
      ⊎ ((x : Error) × (r ≡ err x)
          × (IsLogged [] w w' ⊎ IsLogged (envelope_fact (p.of_ℕ default_amount_cents) ∷ []) w w'))

  issue_for-IsIssuedFor :
      (property date : String) (w : World)
      → IsIssuedFor property date w (issue_for property date (record w { tick = w.tick + 2 }))
  unfolding issue_for
  issue_for-IsIssuedFor property date w =
      let w1 : World = record w { tick = w.tick + 2 } in
      let done = issue_for property date w1 in
      let start = IsLogged-none w w1 refl in
      let step : (r : Result CleanerCardResult × World)
          → done ≡ r
          → IsIssuedFor property date w r
          → IsIssuedFor property date w done =
        λ r same says. subst (IsIssuedFor property date w) (sym same) says in
      elim (Plain-cases (pick_cleaner property)) [
        | inr (x, unknown) ↦ step (err x, w1) (ground arith) (inr (x, refl, inl start))
        | inl (m, picked) ↦
            elim (issue_cleaner_card-cases (concat ("job-" ∷ property ∷ "-" ∷ date ∷ [])) property
              m.id default_amount_cents w1) [
                | inl (card, w2, issued, is_card, logged) ↦
                    step (ok card, w2) (ground arith)
                      (inl (card, m, refl, picked, is_card, IsLogged-then w w1 w2 start logged))
                | inr (x, w2, failed, inl same) ↦
                    step (err x, w2) (ground arith)
                      (inr (x, refl, inl (IsLogged-then w w1 w2 start same)))
                | inr (x, w2, failed, inr half) ↦
                    step (err x, w2) (ground arith)
                      (inr (x, refl, inr (IsLogged-then w w1 w2 start half)))
              ]
      ]

  -- On a checkout, if the cleaner's identity is denied, the call is a `PermissionError` and the audit
  -- log has not grown. If it is allowed, then either a card is returned, for this checkout and the
  -- cleaner of the property, capped at 75 dollars, at the two cleaners' merchant codes, until the end
  -- of the day, and the log has grown by exactly the signed envelope and the card; or the call raises,
  -- and at most the envelope is in the log.
  pub handle_checkout_event_lem :
      (property date : String) (w : World)
      → let done = handle_checkout_event property date w in
        (((card_decision w.tick).allowed ≡ false)
          × (done.0 ≡ err permission_error)
          × IsLogged [] w done.1)
        ⊎ (((card_decision w.tick).allowed ≡ true) × IsIssuedFor property date w done)
  unfolding handle_checkout_event
  handle_checkout_event_lem property date w =
      let w1 : World = record w { tick = w.tick + 2 } in
      let start = IsLogged-none w w1 refl in
      elim (Bool-cases (card_decision w.tick).allowed) [
        | inr denied ↦
            let done : handle_checkout_event property date w ≡ (err permission_error, w1) =
              ground arith in
            inl (
              denied,
              ap (λ r. r.0) done,
              subst (λ v. IsLogged [] w v) (sym (ap (λ r. r.1) done)) start,
            )
        | inl allowed ↦
            let done : handle_checkout_event property date w ≡ issue_for property date w1 =
              ground arith in
            inr (
              allowed,
              subst (IsIssuedFor property date w) (sym done)
                  (issue_for-IsIssuedFor property date w),
            )
      ]
