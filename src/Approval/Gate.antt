-- ===== src/Approval/Gate.antt =====
-- What the approval gate lets through (agent/require_approval.py).
use nemoclaw_smb.Base.{
  ℕ, ◌+◌, ◌≡◌, ◌≢◌, ◌⊎◌, inl, inr, refl, String, Bool, true, false, Option, some, arith, ltb,
  member, str_eq_iff, Bool-cases, Option-cases,
}
use nemoclaw_smb.Base.Dict.{Dict, get, put, contains, get-put}
use nemoclaw_smb.Base.Act.{Result, Result-cases, ok, err, Error, approval_required}
use nemoclaw_smb.Json.{Value}
use nemoclaw_smb.Platform.{Platform, Moment}
use nemoclaw_smb.Approval.{
  Record, Store, Status, pending, approved, expired, valid_actions, is_pending, is_approved_status,
  default_ttl, request_id, requires_approval, validate_inputs, create_request, check, is_approved,
  refuse, enforce_over, enforce_spend, new_record,
}

module _ ⦃p : Platform⦄ where
  Over-cases : (r : Result Bool) → (r ≡ ok true) ⊎ (r ≡ ok false) ⊎ ((x : Error) × (r ≡ err x))
  Over-cases (ok true) = inl refl
  Over-cases (ok false) = inr (inl refl)
  Over-cases (err x) = inr (inr (x, refl))

  is_approved_status_iff : (s : Status) → is_approved_status s ≡ true → s ≡ approved
  is_approved_status_iff s h = ground arith

  -- A check that finds an approved record leaves the store as it is.
  is_approved_lem :
      (t : ℕ → Moment) (rid : String) (s : Store) {s' : Store}
      → is_approved t rid s ≡ (ok true, s')
      → (s' ≡ s) × ((r : Record) × (get rid s ≡ some r) × (r.status ≡ approved))
  unfolding is_approved check
  is_approved_lem t rid s h = elim (Option-cases (get rid s)) [
    | inl e ↦ ground arith
    | inr (r, e) ↦ (ground arith, (r, e, ground arith))
  ]

  -- An approved record passes every check, at any time.
  check_approved :
      (t : ℕ → Moment) (rid : String) (s : Store) {r : Record}
      → get rid s ≡ some r
      → r.status ≡ approved
      → check t rid s ≡ (ok r, s)
  unfolding check
  check_approved t rid s e a = ground arith

  refuse_not_ok :
      (t : ℕ → Moment) (action vendor : String) (amount : p.Float) (context : Dict (Value p.Float))
      (s : Store) {r : Record} {s' : Store}
      → refuse t action vendor amount context s ≢ (ok r, s')
  unfolding refuse
  refuse_not_ok t action vendor amount context s h =
      elim (Result-cases (create_request t action vendor amount context default_ttl s)) [
        | inl (new, s1, e) ↦ ground arith
        | inr (x, s1, e) ↦ ground arith
      ]

  -- Where the code finds the approval, it returns the record that the second check reads.
  granted_ok :
      (t : ℕ → Moment) (rid : String) (s : Store) {s1 : Store} {r : Record} {s' : Store}
      → is_approved (λ i. t (1 + i)) rid s ≡ (ok true, s1)
      → check (λ i. t (2 + i)) rid s1 ≡ (ok r, s')
      → (s' ≡ s) × (get rid s ≡ some r) × (r.status ≡ approved)
  granted_ok t rid s found checked =
      let (same, (r0, at, granted)) = is_approved_lem (λ i. t (1 + i)) rid s found in
      ground (arith, check_approved (λ i. t (2 + i)) rid s at granted)

  enforce_over_ok :
      (t : ℕ → Moment) (action vendor : String) (amount : p.Float) (context : Dict (Value p.Float))
      (s : Store) {r : Record} {s' : Store}
      → enforce_over t action vendor amount context s ≡ (ok r, s')
      → (s' ≡ s) × (get (request_id action vendor amount (t 0)) s ≡ some r) × (r.status ≡ approved)
  unfolding enforce_over
  enforce_over_ok t action vendor amount context s {r} {s'} h =
      let rid = request_id action vendor amount (t 0) in
      elim (Bool-cases (contains rid s)) [
        | inl e ↦ elim (Result-cases (is_approved (λ i. t (1 + i)) rid s)) [
          | inl (true, s1, found) ↦ granted_ok t rid s found (ground arith)
          | inl (false, s1, found) ↦ absurd (
              refuse_not_ok (λ i. t (3 + i)) action vendor amount context s1 {r = r} {s' = s'}
                (ground arith))
          | inr (x, s1, found) ↦ ground arith
        ]
        | inr e ↦ absurd (
            refuse_not_ok (λ i. t (3 + i)) action vendor amount context s {r = r} {s' = s'}
              (ground arith))
      ]

  -- What makes a spend go through: it is not over the threshold, or a record of it is approved.
  abbrev pub IsPermitted :
      (ℕ → Moment) → String → String → p.Float → Option p.Float → Store → Record → Type 0
  IsPermitted t action vendor amount threshold s r =
      (requires_approval amount threshold ≡ ok false)
      ⊎ ((get (request_id action vendor amount (t 0)) s ≡ some r) × (r.status ≡ approved))

  -- If `enforce_spend` returns, then the action is one of the valid ones, the amount is not below
  -- zero, no record has changed, and the amount is not over the threshold or the record of this spend
  -- was approved before the call and is what is returned.
  pub enforce_spend_ok :
      (t : ℕ → Moment) (action vendor : String) (amount : p.Float) (actor : String)
      (context : Dict (Value p.Float)) (threshold : Option p.Float) (s : Store) {r : Record}
      {s' : Store}
      → enforce_spend t action vendor amount actor context threshold s ≡ (ok r, s')
      → (member action valid_actions ≡ true)
        × (p.lt amount (p.of_ℕ 0) ≡ false)
        × (s' ≡ s)
        × IsPermitted t action vendor amount threshold s r
  unfolding enforce_spend validate_inputs
  enforce_spend_ok t action vendor amount actor context threshold s {r} {s'} h =
      elim (Over-cases (requires_approval amount threshold)) [
        | inl e ↦ ground (arith, enforce_over_ok t action vendor amount context s {r = r} {s' = s'})
        | inr (inl e) ↦ ground arith
        | inr (inr (x, e)) ↦ ground arith
      ]

  -- The request that `create_request` returns is pending, also where an old record was in its place.
  create_request_pending :
      (t : ℕ → Moment) (action vendor : String) (amount : p.Float) (context : Dict (Value p.Float))
      (ttl : ℕ) (s : Store)
      → member action valid_actions ≡ true
      → p.lt amount (p.of_ℕ 0) ≡ false
      → let rid = request_id action vendor amount (t 0) in
        (s' : Store) × (create_request t action vendor amount context ttl s ≡ (ok rid, s'))
        × ((r : Record) × (get rid s' ≡ some r) × (r.status ≡ pending))
  unfolding create_request validate_inputs
  create_request_pending t action vendor amount context ttl s valid nonneg =
      let rid = request_id action vendor amount (t 0) in
      let fresh = new_record rid action vendor amount context (t 1).secs ttl in
      elim (Option-cases (get rid s)) [
        | inl e ↦ (
          put rid fresh s,
          ground arith,
          (fresh, ground (arith, get-put rid rid fresh s, str_eq_iff rid rid), refl),
        )
        | inr (r, e) ↦ elim (Bool-cases (is_pending r.status)) [
          | inl waits ↦ (s, ground arith, (r, e, ground arith))
          | inr old ↦ (
            put rid fresh s,
            ground arith,
            (fresh, ground (arith, get-put rid rid fresh s, str_eq_iff rid rid), refl),
          )
        ]
      ]

  refuse_lem :
      (t : ℕ → Moment) (action vendor : String) (amount : p.Float) (context : Dict (Value p.Float))
      (s : Store)
      → member action valid_actions ≡ true
      → p.lt amount (p.of_ℕ 0) ≡ false
      → let rid = request_id action vendor amount (t 0) in
        (s' : Store) × (refuse t action vendor amount context s ≡ (err (approval_required rid), s'))
        × ((r : Record) × (get rid s' ≡ some r) × (r.status ≡ pending))
  unfolding refuse
  refuse_lem t action vendor amount context s valid nonneg =
      let (s', made, waits) =
        create_request_pending t action vendor amount context default_ttl s valid nonneg in
      (s', ground arith, waits)

  not_granted :
      (t : ℕ → Moment) (rid : String) (s : Store)
      → ((r : Record) → get rid s ≡ some r → r.status ≢ approved)
      → (s' : Store) × (is_approved t rid s ≡ (ok false, s'))
  unfolding is_approved check
  not_granted t rid s none_granted = elim (Option-cases (get rid s)) [
    | inl e ↦ (s, ground arith)
    | inr (r, e) ↦ elim (Bool-cases (is_pending r.status)) [
      | inr old ↦ (s, ground (arith, none_granted r e))
      | inl waits ↦ elim (Bool-cases (ltb r.expires_at (t 0).secs)) [
        | inl late ↦ (put rid (record r { status = expired }) s, ground arith)
        | inr open_yet ↦ (s, ground arith)
      ]
    ]
  ]

  -- A valid spend over the threshold of which no record is approved is refused: the call raises
  -- `ApprovalRequired` with the id of this spend at the last reading of the day, and under that id a
  -- pending record waits for a decision.
  pub enforce_spend_refuses :
      (t : ℕ → Moment) (action vendor : String) (amount : p.Float) (actor : String)
      (context : Dict (Value p.Float)) (threshold : Option p.Float) (s : Store)
      → member action valid_actions ≡ true
      → p.lt amount (p.of_ℕ 0) ≡ false
      → requires_approval amount threshold ≡ ok true
      → ((r : Record)
          → get (request_id action vendor amount (t 0)) s ≡ some r
          → r.status ≢ approved)
      → let rid = request_id action vendor amount (t 3) in
        (s' : Store) × (enforce_spend t action vendor amount actor context threshold s
          ≡ (err (approval_required rid), s'))
        × ((r : Record) × (get rid s' ≡ some r) × (r.status ≡ pending))
  unfolding enforce_spend validate_inputs enforce_over
  enforce_spend_refuses t action vendor amount actor context threshold s valid nonneg over
        none_granted =
      let rid = request_id action vendor amount (t 0) in
      let (s1, found) = not_granted (λ i. t (1 + i)) rid s none_granted in
      elim (Bool-cases (contains rid s)) [
        | inl e ↦
            let (s', refused, waits) =
              refuse_lem (λ i. t (3 + i)) action vendor amount context s1 valid nonneg in
            (s', ground arith, waits)
        | inr e ↦
            let (s', refused, waits) =
              refuse_lem (λ i. t (3 + i)) action vendor amount context s valid nonneg in
            (s', ground arith, waits)
      ]
