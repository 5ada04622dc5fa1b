-- ===== src/Money/Batch.antt =====
-- What a run of payouts leaves in the audit log (payments/payouts.py).
use mathlib.Core.List.{append_assoc, append-nil}
use nemoclaw_smb.Base.{
  ℕ, ◌+◌, ◌≡◌, ◌⊎◌, inl, inr, refl, sym, ap, String, List, [], ◌∷◌, ◌++◌, map, arith,
}
use mathlib.Core.Path.{subst}
use nemoclaw_smb.Base.Dict.{get}
use nemoclaw_smb.Base.Act.{Act, Result, Error, ok, err, bind_ok, bind_err}
use nemoclaw_smb.Json.{int}
use nemoclaw_smb.Platform.{Platform}
use nemoclaw_smb.World.{World}
use nemoclaw_smb.World.Logged.{Fact, IsLogged, IsLogged-none, IsLogged-then, on_audit-cases}
use nemoclaw_smb.World.Notes.{noted, with_metadata}
use nemoclaw_smb.Envelope.{float_of}
use nemoclaw_smb.Envelope.Written.{envelope_fact, sign_stripe_envelope-cases}
use nemoclaw_smb.MockLedger.{Member}
use nemoclaw_smb.Money.{
  PayoutRecord, PayoutBatch, paid_record, pay_one, pay_all, run_payouts, payout_payload,
  payout_metadata, dollars,
}

-- what the crew is owed
abbrev pub owed : List Member → ℕ
owed [] = 0
owed (m ∷ ms) = m.rate_cents + owed ms

module _ ⦃p : Platform⦄ where
  -- the entries of one member: the envelope, then the payout
  abbrev pub payout_facts : Member → List Fact
  payout_facts m = envelope_fact (p.of_ℕ m.rate_cents) ∷ ("payout_sent", dollars m.rate_cents) ∷ []

  abbrev pub crew_facts : List Member → List Fact
  crew_facts [] = []
  crew_facts (m ∷ ms) = payout_facts m ++ crew_facts ms

  -- A payout is made, or fails before its entry, with or without its envelope in the log.
  pay_one-cases :
      (month : String) (m : Member) (w : World)
      → ((w' : World) × (pay_one month m w ≡ (ok (paid_record m month), w'))
          × IsLogged (payout_facts m) w w')
        ⊎ ((x : Error) × (w' : World) × (pay_one month m w ≡ (err x, w'))
            × (IsLogged [] w w' ⊎ IsLogged (envelope_fact (p.of_ℕ m.rate_cents) ∷ []) w w'))
  unfolding pay_one get float_of
  pay_one-cases month m w =
      let note =
        noted "Stripe" "crew payout (Connect + Global Payouts)" "firm" "ok"
          (with_metadata (("amount_cents", int m.rate_cents) ∷ [])) in
      elim (sign_stripe_envelope-cases "payout:transfer" (payout_payload m month)
        "property-mgmt-agent" ("payout:crew" ∷ []) {cents = p.of_ℕ m.rate_cents} w refl) [
          | inr (x, w1, failed, same) ↦ inr (x, w1, ground arith, inl same)
          | inl (e, w1, signed, _, first) ↦
              elim (on_audit-cases "payment" "stripe-payouts" (dollars m.rate_cents) "payout_sent"
                "property-mgmt-agent" (payout_metadata m month) w1) [
                  | inr (x, w2, failed, same) ↦
                      inr (x, w2, ground arith, inr (IsLogged-then w w1 w2 first same))
                  | inl (entry, w2, done, next) ↦ inl (
                    note w2,
                    ground arith,
                    IsLogged-then w w2 (note w2) (IsLogged-then w w1 w2 first next)
                        (IsLogged-none w2 (note w2) refl),
                  )
                ]
        ]

  -- What the loop does from a batch on.
  abbrev pub IsPaid :
      String → List Member → PayoutBatch → World → Result PayoutBatch × World → Type 0
  IsPaid month crew batch w (r, w') =
      ((r
          ≡ ok (record batch {
            records = batch.records ++ map (λ m. paid_record m month) crew;
            total_cents = batch.total_cents + owed crew;
          }))
        × IsLogged (crew_facts crew) w w')
      ⊎ ((x : Error) × (done : List Member) × (m : Member) × (rest : List Member) × (r ≡ err x)
          × (crew ≡ done ++ (m ∷ rest))
          × (IsLogged (crew_facts done) w w'
              ⊎ IsLogged (crew_facts done ++ (envelope_fact (p.of_ℕ m.rate_cents) ∷ [])) w w'))

  IsPaid-cons :
      (month : String) (m : Member) (ms : List Member) (batch : PayoutBatch) (w w1 : World)
      (done : Result PayoutBatch × World)
      → IsLogged (payout_facts m) w w1
      → IsPaid month ms
          (record batch {
            records = batch.records ++ (paid_record m month ∷ []);
            total_cents = batch.total_cents + m.rate_cents;
          })
          w1
          done
      → IsPaid month (m ∷ ms) batch w done
  IsPaid-cons month m ms batch w w1 (r, w') first (inl (paid, logged)) = inl (
    ground (
      arith,
      paid,
      append_assoc batch.records (paid_record m month ∷ []) (map (λ m. paid_record m month) ms),
    ),
    IsLogged-then w w1 w' first logged,
  )
  IsPaid-cons month m ms batch w w1 (r, w') first
        (inr (x, done, m', rest, failed, split, inl before)) =
      inr (
        x,
        m ∷ done,
        m',
        rest,
        failed,
        ap (λ l. m ∷ l) split,
        inl (IsLogged-then w w1 w' first before),
      )
  IsPaid-cons month m ms batch w w1 (r, w') first
        (inr (x, done, m', rest, failed, split, inr half)) =
      inr (
        x,
        m ∷ done,
        m',
        rest,
        failed,
        ap (λ l. m ∷ l) split,
        inr (IsLogged-then w w1 w' first half),
      )

  pay_all-IsPaid :
      (month : String) (crew : List Member) (batch : PayoutBatch) (w : World)
      → IsPaid month crew batch w (pay_all month crew batch w)
  unfolding pay_all
  pay_all-IsPaid month [] batch w =
      inl (ground (arith, append-nil batch.records), IsLogged-none w w refl)
  pay_all-IsPaid month (m ∷ ms) batch w =
      let go : PayoutRecord → Act World PayoutBatch = λ paid. pay_all month ms (record batch {
        records = batch.records ++ (paid ∷ []);
        total_cents = batch.total_cents + paid.amount_cents;
      }) in
      elim (pay_one-cases month m w) [
        | inr (x, w1, failed, before) ↦
            subst (IsPaid month (m ∷ ms) batch w) (sym (bind_err (pay_one month m) go w failed))
              (inr (x, [], m, ms, refl, refl, before))
        | inl (w1, paid, logged) ↦
            subst (IsPaid month (m ∷ ms) batch w) (sym (bind_ok (pay_one month m) go w paid)) (
              IsPaid-cons month m ms batch w w1 (go (paid_record m month) w1) logged
                (pay_all-IsPaid month ms _ w1))
      ]

  -- A run of payouts either returns a batch with one record for each member in the order of the crew,
  -- whose total is the sum of their rates, and then the audit log has grown by exactly two entries for
  -- each member, a signed envelope and then the payout, both over the member's rate in dollars; or it
  -- raises at some member, and then the log has grown by the two entries of each member before, and at
  -- most the envelope of that one.
  pub run_payouts_lem :
      (crew : List Member) (month : String) (w : World)
      → IsPaid month crew
          (record { month = month; records = []; total_cents = 0 })
          w
          (run_payouts crew month w)
  unfolding run_payouts
  run_payouts_lem crew month w = pay_all-IsPaid month crew _ w
