-- ===== src/Examples/Earnings.antt =====
-- Concrete earnings, governance and listings (payments/mpp_server.py, control_plane/c1_governance.py).
use nemoclaw_smb.Base.{ℕ, ◌≡◌, ◌⊎◌, refl, false, none, some, [], ◌∷◌, concat, member, after_prefix}
use nemoclaw_smb.Base.Dict.{Dict}
use nemoclaw_smb.Base.Act.{Act, Result, ok, err}
use nemoclaw_smb.Json.{Value}
use nemoclaw_smb.Audit.{append_earn}
use nemoclaw_smb.Chain.{append_with, last_piece, read_head, seal, tail_line}
use nemoclaw_smb.Earn.{
  Answer, c1_authorize, endpoint, extract_token, paid_token, payment_required, serve,
  validate_mpp_token, write_earn_event,
}
use nemoclaw_smb.Earn.Served.{IsAnswered, endpoint_lem}
use nemoclaw_smb.Governance.{
  Nhi, authorize, baton_authorize, issue_nhi, resolve_c1z_path, route_of, synthetic_authorize,
}
use nemoclaw_smb.Governance.Denials.{IsBatonAnswer, authorize_denies}
use nemoclaw_smb.Graph.{empty}
use nemoclaw_smb.Policy.{Decision, check_policy, load_policy, mock_check}
use nemoclaw_smb.World.{World}
use nemoclaw_smb.Examples.{desk}

abbrev agent : Nhi
agent = issue_nhi (desk.clock 0) "owner-agent" [] 3600

authorize_denies_example :
    IsBatonAnswer 0 agent "open" "vault" false
    ⊎ ((d : Decision) × (check_policy 0 (concat ("vault" ∷ ":" ∷ "open" ∷ [])) 0 "owner-agent" none
          ≡ ok d)
        × (d.allowed ≡ false))
unfolding authorize baton_authorize route_of synthetic_authorize issue_nhi check_policy load_policy
    mock_check member
authorize_denies_example = authorize_denies 0 agent "open" "vault" refl

abbrev start : World
start = record {
  tick = 0;
  audit = none;
  interactions = none;
  approvals = [];
  graph = empty;
  ledger = [];
  accounts = [];
}

abbrev quote : Act World (Dict (Value ℕ))
quote w = (ok [], w)

abbrev run : Result Answer × World
run = endpoint "price" 25 quote (some "mpp_tok_1") start

abbrev answer_of : Result Answer → Answer
answer_of (ok a) = a
answer_of (err x) = payment_required 0

endpoint_lem_example : IsAnswered "price" 25 quote (some "mpp_tok_1") start (answer_of run.0) run.1
unfolding endpoint paid_token extract_token validate_mpp_token after_prefix serve c1_authorize
    authorize baton_authorize route_of resolve_c1z_path synthetic_authorize issue_nhi check_policy
    load_policy mock_check member write_earn_event append_earn append_with read_head tail_line
    last_piece seal
endpoint_lem_example =
    endpoint_lem "price" 25 quote (some "mpp_tok_1") start {a = answer_of run.0} {w' = run.1} refl
