-- ===== src/Examples/Envelopes.antt =====
-- Concrete approvals, envelopes and movements of money (agent/require_approval.py,
-- payments/envelopes.py, payments/payouts.py, payments/connect.py, payments/metronome.py).
use nemoclaw_smb.Base.{
  ℕ, ◌≡◌, ◌≢◌, ◌⊎◌, refl, String, true, false, none, some, [], ◌∷◌, str_eq, str_eq_iff, arith,
  member,
}
use nemoclaw_smb.Base.Dict.{Dict, get, put}
use nemoclaw_smb.Base.Act.{Error, Result, ok, err, approval_required}
use nemoclaw_smb.Json.{Value, int, str}
use nemoclaw_smb.Approval.{Record, approved, decide, enforce_spend, request_id, requires_approval}
use nemoclaw_smb.Approval.Granted.{spend_after_approval}
use nemoclaw_smb.Envelope.{
  Envelope, build_envelope, float_of, sign_stripe_envelope, text_field, verify_envelope,
}
use nemoclaw_smb.Envelope.Signing.{IsPair, IsSigning}
use nemoclaw_smb.Envelope.Signed.{IsSignedOrBad, build_envelope_verifies}
use nemoclaw_smb.Envelope.Bound.{IsBound, verify_envelope_binds}
use nemoclaw_smb.Envelope.Written.{envelope_fact, sign_stripe_envelope_lem}
use nemoclaw_smb.Graph.{empty}
use nemoclaw_smb.MockLedger.{crew}
use nemoclaw_smb.Audit.{append_action}
use nemoclaw_smb.Chain.{append_with, last_piece, read_head, seal, tail_line}
use nemoclaw_smb.Money.{
  account_of, ensure_all, ensure_one, provision, ensure_owner_accounts, run_payouts,
}
use nemoclaw_smb.Money.Batch.{IsPaid, run_payouts_lem}
use nemoclaw_smb.Money.Accounts.{ensure_owner_accounts_again}
use nemoclaw_smb.World.{ConnectedAccount, World}
use nemoclaw_smb.World.Logged.{IsLogged}
use nemoclaw_smb.Examples.{desk}

abbrev now : ℕ → nemoclaw_smb.Platform.Moment
now i = desk.clock i

spend_after_approval_example :
    let rid = request_id "purchase" "AWS" 900 (now 0) in
    let asked = enforce_spend now "purchase" "AWS" 900 "agent" [] (some 100) [] in
    let settled = decide now rid true "owner" asked.1 in
    (asked.0 ≡ err (approval_required rid))
    × ((r : Record) × (settled.0 ≡ ok r)
        × (r.status ≡ approved)
        × (enforce_spend now "purchase" "AWS" 900 "agent" [] (some 100) settled.1
            ≡ (ok r, settled.1)))
unfolding member requires_approval get
spend_after_approval_example =
    spend_after_approval now now now "purchase" "AWS" 900 "agent" "owner" [] (some 100) [] refl refl
      refl refl refl (omega arith) refl

not_empty : (s : String) → str_eq s "" ≡ false → s ≢ ""
not_empty s h e = absurd (ground (arith, str_eq_iff s ""))

desk-IsPair : IsPair "priv" "pub"
desk-IsPair = record {
  visible = not_empty "pub" refl;
  signs = λ text. not_empty "sig" refl;
  accepts = λ text. refl;
}

desk-IsSigning : IsSigning
desk-IsSigning = record {
  key_of_b64 = λ raw a b h. cc h;
  generate_key = λ tick. desk-IsPair;
  visible = λ tick a b h. cc h;
  issues = λ tick agent scopes a b skill resources policy d h made. cc h;
  leaves_flat = λ key v d h. refl;
}

abbrev payout : Dict (Value ℕ)
payout = ("crew_id", str "crew-001") ∷ ("amount_cents", int 8500) ∷ []

build_envelope_verifies_example :
    IsSignedOrBad (build_envelope 0 "payout:transfer" payout "agent" ("payout:crew" ∷ []))
build_envelope_verifies_example =
    build_envelope_verifies desk-IsSigning 0 "payout:transfer" payout "agent" ("payout:crew" ∷ [])

abbrev small_envelope : Envelope
small_envelope =
    ("action", str "pay") ∷ ("signature", str "sig") ∷ ("public_key_hex", str "pub") ∷ []

verify_envelope_binds_example :
    (sig : String) × (public_key : String) × (text_field "signature" small_envelope ≡ some sig)
    × (text_field "public_key_hex" small_envelope ≡ some public_key)
    × IsBound small_envelope public_key
unfolding verify_envelope text_field get
verify_envelope_binds_example = verify_envelope_binds small_envelope refl

abbrev start : World
start = record {
  tick = 0;
  audit = none;
  interactions = none;
  approvals = [];
  graph = empty;
  ledger = [];
  accounts = [];
}

sign_stripe_envelope_lem_example :
    let done = sign_stripe_envelope "payout:transfer" payout "agent" ("payout:crew" ∷ []) start in
    ((e : Envelope) × (w' : World) × (done ≡ (ok e, w'))
      × (verify_envelope e ≡ true)
      × IsLogged (envelope_fact 8500 ∷ []) start w')
    ⊎ ((x : Error) × (w' : World) × (done ≡ (err x, w')) × IsLogged [] start w')
unfolding float_of get
sign_stripe_envelope_lem_example =
    sign_stripe_envelope_lem "payout:transfer" payout "agent" ("payout:crew" ∷ []) desk-IsSigning
      {cents = 8500} start refl

run_payouts_lem_example :
    IsPaid "2026-05" crew
      (record { month = "2026-05"; records = []; total_cents = 0 })
      start
      (run_payouts crew "2026-05" start)
run_payouts_lem_example = run_payouts_lem crew "2026-05" start

abbrev accounts_run : Result (Dict ConnectedAccount) × World
accounts_run = ensure_owner_accounts ("owner-001" ∷ []) start

ensure_owner_accounts_again_example :
    ensure_owner_accounts ("owner-001" ∷ []) accounts_run.1 ≡ accounts_run
unfolding ensure_owner_accounts ensure_all ensure_one provision append_action append_with read_head
    tail_line last_piece seal get put member
ensure_owner_accounts_again_example =
    ensure_owner_accounts_again ("owner-001" ∷ []) start
      {accounts = ("owner-001", account_of "owner-001") ∷ []} {w' = accounts_run.1} refl
