-- ===== src/Approval.antt =====
-- The spend approval gate (agent/require_approval.py). The directory of YAML records is a dict keyed
-- by request id; an ISO timestamp is the number that the clock showed. Each function takes its
-- readings of the clock as `t 0`, `t 1`, …
pub mod Gate
pub mod Granted
pub mod Pending
pub mod Records
use Prim.Native.String.{slice}
use nemoclaw_smb.Base.{
  ℕ, ◌+◌, String, Bool, true, false, not, Option, none, some, List, [], ◌∷◌, ltb, leb, concat, sort,
  str_le, member, if◌then◌else◌,
}
use nemoclaw_smb.Base.Dict.{Dict, get, contains, put}
use nemoclaw_smb.Base.Act.{
  Act, Result, ok, err, value_error, key_error, approval_required, pure, raise, raise_if, ◌>>=◌,
  ◌>>◌, modify, gets,
}
use nemoclaw_smb.Json.{Value}
use nemoclaw_smb.Platform.{Platform, Moment}

pub data Status : Type 0 where
  pending approved denied expired auto_approved : Status

abbrev pub is_pending : Status → Bool
is_pending pending = true
is_pending _ = false

abbrev pub is_approved_status : Status → Bool
is_approved_status approved = true
is_approved_status _ = false

abbrev pub valid_actions : List String
valid_actions = "purchase" ∷ "subscribe" ∷ "renew" ∷ "refund" ∷ "transfer" ∷ "contract" ∷ []

abbrev pub default_ttl : ℕ
default_ttl = 86400

module _ ⦃p : Platform⦄ where
  open p use {Float}

  -- The record that is made up for a spend under the threshold has an actor, and `none` or nothing in
  -- the fields that it lacks.
  pub record Record : Type 0 where
    pub id : Option String
    pub action : String
    pub vendor : String
    pub amount : Float
    pub context : Dict (Value Float)
    pub created_at : ℕ
    pub expires_at : ℕ
    pub status : Status
    pub decided_at : Option ℕ
    pub decided_by : Option String
    pub actor : Option String

  abbrev pub Store : Type 0
  Store = Dict Record

  pub request_id : String → String → Float → Moment → String
  request_id action vendor amount now =
      slice
        (p.sha256 (concat (action ∷ ":" ∷ vendor ∷ ":" ∷ p.show_float amount ∷ ":" ∷ now.day ∷ [])))
        0 12

  -- `float(os.getenv("SPEND_APPROVAL_THRESHOLD", "100"))`
  pub default_threshold : Result Float
  default_threshold =
      elim (p.parse_float
        (elim (p.getenv "SPEND_APPROVAL_THRESHOLD") [ some v ↦ v | none ↦ "100" ])) [
          | some x ↦ ok x
          | none ↦ err value_error
        ]

  unfoldable pub requires_approval : Float → Option Float → Result Bool
  unfolding default_threshold
  requires_approval amount (some limit) = ok (p.lt limit amount)
  requires_approval amount none = elim default_threshold [
    | ok limit ↦ ok (p.lt limit amount)
    | err e ↦ err e
  ]

  unfoldable pub validate_inputs : String → Float → Act Store (Unit {0})
  validate_inputs action amount = do
    raise_if (not (member action valid_actions)) value_error
    raise_if (p.lt amount (p.of_ℕ 0)) value_error

  abbrev pub new_record : String → String → String → Float → Dict (Value Float) → ℕ → ℕ → Record
  new_record rid action vendor amount context now ttl = record {
    id = some rid;
    action = action;
    vendor = vendor;
    amount = amount;
    context = context;
    created_at = now;
    expires_at = now + ttl;
    status = pending;
    decided_at = none;
    decided_by = none;
    actor = none;
  }

  unfoldable pub create_request :
      (ℕ → Moment) → String → String → Float → Dict (Value Float) → ℕ → Act Store String
  create_request t action vendor amount context ttl = do
    validate_inputs action amount
    let rid = request_id action vendor amount (t 0)
    let fresh = new_record rid action vendor amount context (t 1).secs ttl
    existing ← gets (get rid)
    elim existing [
      | none ↦ modify (put rid fresh) >> pure rid
      | some r ↦ if is_pending r.status then pure rid else (modify (put rid fresh) >> pure rid)
    ]

  abbrev pub decided : Record → Bool → ℕ → String → Record
  decided r approve at by = record r {
    status = if approve then approved else denied;
    decided_at = some at;
    decided_by = some by;
  }

  unfoldable pub decide : (ℕ → Moment) → String → Bool → String → Act Store Record
  decide t rid approve by = do
    found ← gets (get rid)
    elim found [
      | none ↦ raise key_error
      | some r ↦
          let late = record r { status = expired } in
          let done = decided r approve (t 0).secs by in
          if not (is_pending r.status)
          then pure r
          else if ltb r.expires_at (t 0).secs
          then (modify (put rid late) >> pure late)
          else (modify (put rid done) >> pure done)
    ]

  pub check : (ℕ → Moment) → String → Act Store Record
  check t rid = do
    found ← gets (get rid)
    elim found [
      | none ↦ raise key_error
      | some r ↦
          let late = record r { status = expired } in
          if is_pending r.status
          then if ltb r.expires_at (t 0).secs then (modify (put rid late) >> pure late) else pure r
          else pure r
    ]

  -- A `KeyError` of `check` is caught.
  pub is_approved : (ℕ → Moment) → String → Act Store Bool
  is_approved t rid s =
      let (r, s') = check t rid s in
      elim r [ ok rec ↦ (ok (is_approved_status rec.status), s') | err _ ↦ (ok false, s') ]

  abbrev pub auto_record : String → String → Float → String → Record
  auto_record action vendor amount actor = record {
    id = none;
    action = action;
    vendor = vendor;
    amount = amount;
    context = [];
    created_at = 0;
    expires_at = 0;
    status = auto_approved;
    decided_at = none;
    decided_by = none;
    actor = some actor;
  }

  -- `raise ApprovalRequired(create_request(…))`
  pub refuse : (ℕ → Moment) → String → String → Float → Dict (Value Float) → Act Store Record
  refuse t action vendor amount context = do
    new ← create_request t action vendor amount context default_ttl
    raise (approval_required new)

  -- What `enforce_spend` does with a spend over the threshold.
  pub enforce_over : (ℕ → Moment) → String → String → Float → Dict (Value Float) → Act Store Record
  enforce_over t action vendor amount context = do
    let rid = request_id action vendor amount (t 0)
    exists ← gets (contains rid)
    granted ← (if exists then is_approved (λ i. t (1 + i)) rid else pure false)
    if granted
        then check (λ i. t (2 + i)) rid
        else refuse (λ i. t (3 + i)) action vendor amount context

  unfoldable pub enforce_spend :
      (ℕ → Moment)
      → String
      → String
      → Float
      → String
      → Dict (Value Float)
      → Option Float
      → Act Store Record
  enforce_spend t action vendor amount actor context threshold = do
    validate_inputs action amount
    over ← (λ s. (requires_approval amount threshold, s))
    if over
        then enforce_over t action vendor amount context
        else pure (auto_record action vendor amount actor)

  abbrev pub by_id : String × Record → String × Record → Bool
  by_id (i, _) (j, _) = str_le i j

  -- The loop of `list_pending` over the records in the order of their file names, each with a reading
  -- of the clock.
  pub waiting : (ℕ → Moment) → List (String × Record) → List Record
  waiting t [] = []
  waiting t ((rid, r) ∷ rest) =
      let others = waiting (λ i. t (1 + i)) rest in
      if is_pending r.status
      then if leb (t 0).secs r.expires_at then r ∷ others else others
      else others

  pub list_pending : (ℕ → Moment) → Store → List Record
  list_pending t s = waiting t (sort by_id s)
