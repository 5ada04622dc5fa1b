-- ===== src/Harness.antt =====
-- The safe-execution harness (agent/nemoclaw_harness.py) over a registry of skills
-- (agent/skills/base.py). The texts in a step's `detail` are left out: they are only shown.
pub mod Guarded
use Prim.Native.String.{slice}
use nemoclaw_smb.Scan.{
  unsafe_patterns, first_some, pattern_in, scan_value, scan_items, scan_fields, scan_unsafe,
}
use nemoclaw_smb.Base.{
  ℕ, ◌+◌, String, Bool, true, false, not, Option, none, some, List, [], ◌∷◌, ◌++◌, concat, has_part,
  member, str_eq, if◌then◌else◌,
}
use nemoclaw_smb.Base.Dict.{Dict, get, contains}
use nemoclaw_smb.Base.Act.{
  Act, Result, ok, err, approval_required, key_error, runtime_error, value_error, type_error, pure,
  ◌>>=◌, ◌>>◌, gets,
}
use nemoclaw_smb.Json.{
  Value, null, bool, int, real, str, arr, obj, Items, nil, cons, Fields, end, field,
}
use nemoclaw_smb.Platform.{Platform}
use nemoclaw_smb.Chain.{Entry}
use nemoclaw_smb.Audit.{append_action}
use nemoclaw_smb.Approval.{enforce_spend}
use nemoclaw_smb.World.{World, on_audit, on_approvals, outside, item}

pub data Outcome : Type 0 where
  blocked escalated executed : Outcome

-- A step that the result lists: its name and its status.
pub record Step : Type 0 where
  pub step : String
  pub status : String

abbrev pub or_text : Option String → String → String
or_text none other = other
or_text (some s) other = if str_eq s "" then other else s

module _ ⦃p : Platform⦄ where
  open p use {Float}

  -- A registered skill is the function that it runs.
  abbrev pub Skill : Type 0
  Skill = Dict (Value Float) → Act World (Dict (Value Float))

  abbrev pub Registry : Type 0
  Registry = Dict Skill

  pub record Report : Type 0 where
    pub skill : String
    pub outcome : Outcome
    pub steps : List Step
    pub result : Option (Dict (Value Float))
    pub audit_entry_hash : Option (Value Float)
    pub approval_request_id : Option String

  abbrev env : String → String
  env name = elim (p.getenv name) [ none ↦ "" | some s ↦ s ]

  abbrev any_part : List String → String → Bool
  any_part signals text = elim (pattern_in signals text) [ none ↦ false | some _ ↦ true ]

  -- `_nemo_guardrails_check`, where `none` lets the skill run; an exception is taken for the built-in
  -- answer, as the caller does.
  pub nemo_guardrails_check : ℕ → String → Dict (Value Float) → Option String
  nemo_guardrails_check tick name args = elim (p.rails tick name args) [
    | none ↦ none
    | some answer ↦
        let text = p.lower (p.strip answer) in
        if any_part ("i'm sorry, i can't" ∷ "i am sorry, i can't" ∷ "i cannot respond" ∷ []) text
        then some (concat ("NeMo Guardrails blocked: " ∷ slice text 0 80 ∷ []))
        else none
  ]

  -- `_guardrail_check`: `none` where the skill may run, and otherwise the reason
  unfoldable pub guardrail_check : Registry → ℕ → String → Dict (Value Float) → Option String
  guardrail_check registry tick name args =
      if not (contains name registry)
      then some (concat ("skill " ∷ p.repr name ∷ " not registered" ∷ []))
      else elim (scan_unsafe args) [
        | some q ↦ some (concat ("unsafe pattern detected: " ∷ p.repr q ∷ []))
        | none ↦
            if str_eq (env "NEMOCLAW_GUARDRAILS") "1"
            then nemo_guardrails_check tick name args
            else none
      ]

  abbrev pub sandbox_enabled : Bool
  sandbox_enabled =
      member (p.lower (p.strip (env "NEMOCLAW_SANDBOX"))) ("1" ∷ "true" ∷ "yes" ∷ "on" ∷ [])

  -- `skills_base.run_skill`
  unfoldable pub run_registered : Registry → String → Skill
  run_registered registry name args = elim (get name registry) [
    | none ↦ (λ w. (err key_error, w))
    | some run ↦ run args
  ]

  -- The child works on objects of its own; what it writes to files stays. A child that fails, or that
  -- does not end in time, is a `RuntimeError` or a `TimeoutExpired`.
  pub run_skill_subprocess : Registry → String → Skill
  run_skill_subprocess registry name args w =
      let (r, w') = run_registered registry name args w in
      let back = record w' { graph = w.graph; ledger = w.ledger; accounts = w.accounts } in
      if p.child_ends w.tick
      then elim r [ ok d ↦ (ok d, back) | err _ ↦ (err runtime_error, back) ]
      else (err runtime_error, back)

  -- `int(os.environ.get("NEMOCLAW_SANDBOX_TIMEOUT", 30))`
  abbrev timeout_reads : Bool
  timeout_reads = elim (p.getenv "NEMOCLAW_SANDBOX_TIMEOUT") [
    | none ↦ true
    | some s ↦ elim (p.parse_int s) [ none ↦ false | some _ ↦ true ]
  ]

  abbrev labelled :
      String → Result (Dict (Value Float)) × World → Result (Dict (Value Float) × String) × World
  labelled label (ok d, w) = (ok (d, label), w)
  labelled label (err e, w) = (err e, w)

  -- `_run_skill`: the arguments of the model are JSON, so only a timeout that is no number makes the
  -- sandbox fall back to the process itself.
  unfoldable pub run_skill :
      Registry → String → Dict (Value Float) → Act World (Dict (Value Float) × String)
  run_skill registry name args w =
      if sandbox_enabled
      then if timeout_reads
        then labelled "subprocess" (run_skill_subprocess registry name args w)
        else labelled "in-process" (run_registered registry name args w)
      else labelled "in-process" (run_registered registry name args w)

  -- An audit entry of the harness, and its hash.
  unfoldable pub audited :
      String
      → Option String
      → Float
      → String
      → String
      → Dict (Value Float)
      → Act World (Value Float)
  audited action vendor amount decision actor metadata =
      on_audit
        (λ now. append_action now action (or_text vendor "unknown") amount decision actor metadata)
      >>= item "entry_hash"

  abbrev pub amount_or : Option Float → Float
  amount_or none = p.of_ℕ 0
  amount_or (some x) = x

  -- What `_permission_gate` does on `ApprovalRequired`.
  pub escalate : String → String → Float → Option String → String → List Step → Act World Report
  escalate name actor amount vendor rid steps = do
    h ←
        audited "approval_request" vendor amount "escalated" actor
          (("skill", str name) ∷ ("request_id", str rid) ∷ [])
    pure (record {
      skill = name;
      outcome = escalated;
      steps = steps ++ (record { step = "permission"; status = "escalated" } ∷ []);
      result = none;
      audit_entry_hash = some h;
      approval_request_id = some rid;
    })

  abbrev pub halt : Result Report × World → Result (Option Report × List Step) × World
  halt (ok report, w) = (ok (some report, report.steps), w)
  halt (err e, w) = (err e, w)

  -- `_permission_gate`: `ApprovalRequired` is caught, and every other exception goes on.
  unfoldable pub permission_gate :
      String
      → String
      → Float
      → Option String
      → Option Float
      → List Step
      → Act World (Option Report × List Step)
  permission_gate name actor amount vendor threshold steps w =
      let (r, w') =
        on_approvals
          (λ t. enforce_spend t "purchase" (or_text vendor "unknown") amount actor [] threshold)
          w in
      elim r [
        | ok _ ↦ (ok (none, steps ++ (record { step = "permission"; status = "ok" } ∷ [])), w')
        | err (approval_required rid) ↦ halt (escalate name actor amount vendor rid steps w')
        | err e ↦ (err e, w')
      ]

  -- The gate is passed over where there is no amount.
  abbrev pub gate :
      String
      → String
      → Option Float
      → Option String
      → Option Float
      → List Step
      → Act World (Option Report × List Step)
  gate name actor none vendor threshold steps w = (ok (none, steps), w)
  gate name actor (some amount) vendor threshold steps w =
      permission_gate name actor amount vendor threshold steps w

  -- `execute` from the run of the skill on
  unfoldable pub run_and_audit :
      Registry
      → String
      → Dict (Value Float)
      → String
      → Option Float
      → Option String
      → List Step
      → Act World Report
  run_and_audit registry name args actor amount vendor steps = do
    (d, label) ← run_skill registry name args
    h ←
        audited "payment" vendor (amount_or amount) "executed" actor
          (("skill", str name) ∷ ("sandbox", str label) ∷ [])
    pure (record {
      skill = name;
      outcome = executed;
      steps =
          steps
          ++ (record { step = "execute"; status = "ok" }
              ∷ record { step = "audit"; status = "ok" }
              ∷ []);
      result = some d;
      audit_entry_hash = some h;
      approval_request_id = none;
    })

  -- What `execute` does where the guardrail refuses.
  pub block : String → String → Option Float → Option String → String → Act World Report
  block name actor amount vendor reason = do
    h ←
        audited "access_change" vendor (amount_or amount) "blocked" actor
          (("skill", str name) ∷ ("reason", str reason) ∷ [])
    pure (record {
      skill = name;
      outcome = blocked;
      steps = record { step = "guardrail"; status = "blocked" } ∷ [];
      result = none;
      audit_entry_hash = some h;
      approval_request_id = none;
    })

  unfoldable pub execute :
      Registry
      → String
      → Dict (Value Float)
      → String
      → Option Float
      → Option String
      → Option Float
      → Act World Report
  execute registry name args actor amount vendor threshold = do
    verdict ← outside (λ tick. ok (guardrail_check registry tick name args))
    elim verdict [
      | some reason ↦ block name actor amount vendor reason
      | none ↦ do
        (halted, steps) ←
            gate name actor amount vendor threshold
              (record { step = "guardrail"; status = "ok" } ∷ [])
        elim halted [
          | some report ↦ pure report
          | none ↦ run_and_audit registry name args actor amount vendor steps
        ]
    ]
