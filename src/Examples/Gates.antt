-- ===== src/Examples/Gates.antt =====
-- Concrete calls of the gates (agent/require_approval.py, control_plane/policy_check.py, agent/tenancy.py).
use nemoclaw_smb.Base.{
  ℕ, ◌≡◌, ◌≢◌, refl, String, true, false, none, some, List, [], ◌∷◌, member, ltb, leb,
}
use nemoclaw_smb.Base.Dict.{get}
use nemoclaw_smb.Base.Act.{err, approval_required}
use nemoclaw_smb.Platform.{Platform}
use nemoclaw_smb.Approval.{
  Record, Store, approved, auto_record, denied, enforce_spend, expired, new_record, pending,
  request_id, valid_actions, requires_approval, validate_inputs,
}
use nemoclaw_smb.Approval.Gate.{IsPermitted, enforce_spend_ok, enforce_spend_refuses}
use nemoclaw_smb.Approval.Records.{Call, Sound, after_all, after_all-Sound, settle, spend}
use nemoclaw_smb.Policy.{blocked, mock_check}
use nemoclaw_smb.Policy.Limits.{limit_of, mock_check_allows}
use nemoclaw_smb.Tenancy.{load_tenant, tenant_of, validate}
use nemoclaw_smb.Tenancy.Routing.{IsConfined, load_tenant-IsConfined}
use nemoclaw_smb.Examples.{desk, desk_policy, desk_tenant}

abbrev clock : ℕ → nemoclaw_smb.Platform.Moment
clock i = desk.clock i

abbrev small_record : Record
small_record = auto_record "purchase" "AWS" 50 "agent"

enforce_spend_ok_example :
    (member "purchase" valid_actions ≡ true)
    × (ltb 50 0 ≡ false)
    × (◌≡◌ {A = Store} [] [])
    × IsPermitted clock "purchase" "AWS" 50 (some 100) [] small_record
unfolding enforce_spend validate_inputs requires_approval member
enforce_spend_ok_example =
    enforce_spend_ok clock "purchase" "AWS" 50 "agent" [] (some 100) [] {r = small_record} {s' = []}
      refl

nothing_granted :
    (rid : String) (r : Record) → get {V = Record} rid [] ≡ some r → r.status ≢ approved
unfolding get
nothing_granted rid r h = cc h

enforce_spend_refuses_example :
    (s' : Store) × (enforce_spend clock "purchase" "AWS" 900 "agent" [] (some 100) []
      ≡ (err (approval_required (request_id "purchase" "AWS" 900 (clock 3))), s'))
    × ((r : Record) × (get (request_id "purchase" "AWS" 900 (clock 3)) s' ≡ some r)
        × (r.status ≡ pending))
unfolding member requires_approval
enforce_spend_refuses_example =
    enforce_spend_refuses clock "purchase" "AWS" 900 "agent" [] (some 100) [] refl refl refl
      (nothing_granted _)

empty-Sound : Sound []
unfolding get
empty-Sound rid r h = cc h

abbrev two_calls : List Call
two_calls =
    spend clock "purchase" "AWS" 900 "agent" [] (some 100)
    ∷ settle clock "aaaaaaaaaaaa" true "owner"
    ∷ []

after_all-Sound_example : Sound (after_all two_calls [])
after_all-Sound_example = after_all-Sound two_calls [] empty-Sound

abbrev waiting : Record
waiting = new_record "r1" "purchase" "AWS" 900 [] 0 86400

abbrev settled : Record
settled = nemoclaw_smb.Approval.decided waiting true 0 "owner"

mock_check_allows_example :
    ((mock_check "AWS" 300 desk_policy).allowed ≡ true
      → (member "AWS" (blocked desk_policy) ≡ false)
        × (leb 300 (limit_of "AWS" desk_policy) ≡ true))
    × ((member "AWS" (blocked desk_policy) ≡ false)
        → leb 300 (limit_of "AWS" desk_policy) ≡ true
        → (mock_check "AWS" 300 desk_policy).allowed ≡ true)
mock_check_allows_example = mock_check_allows "AWS" 300 desk_policy

load_tenant-IsConfined_example : IsConfined (tenant_of "acme" "acme" desk_tenant)
unfolding load_tenant validate member
load_tenant-IsConfined_example = load_tenant-IsConfined "acme" none refl
