-- ===== src/Approval/Granted.antt =====
-- A refused spend that is approved in time goes through (agent/require_approval.py).
use nemoclaw_smb.Base.{
  ℕ, ◌+◌, ◌≤◌, ◌≡◌, refl, String, true, false, Option, none, some, arith, member, str_eq_iff,
}
use nemoclaw_smb.Base.Dict.{get, put, contains, get-put, Dict}
use nemoclaw_smb.Base.Act.{ok, err, approval_required}
use nemoclaw_smb.Json.{Value}
use nemoclaw_smb.Platform.{Platform, Moment}
use nemoclaw_smb.Approval.{
  Record, Store, approved, pending, valid_actions, default_ttl, request_id, requires_approval,
  validate_inputs, create_request, check, decide, decided, is_approved, refuse, enforce_over,
  enforce_spend, new_record,
}

module _ ⦃p : Platform⦄ where
  request_id-day :
      (action vendor : String) (amount : p.Float) (now now' : Moment)
      → now'.day ≡ now.day
      → request_id action vendor amount now' ≡ request_id action vendor amount now
  unfolding request_id
  request_id-day action vendor amount now now' same = rw same

  -- A decision in time puts the decided record in place of the pending one.
  decide_in_time :
      (t : ℕ → Moment) (rid by : String) (s : Store) (r : Record)
      → get rid s ≡ some r
      → r.status ≡ pending
      → (t 0).secs ≤ r.expires_at
      → decide t rid true by s
        ≡ (ok (decided r true (t 0).secs by), put rid (decided r true (t 0).secs by) s)
  unfolding decide
  decide_in_time t rid by s r here waits in_time = ground arith

  -- A spend of which an approved record is in the store.
  spend_approved :
      (t : ℕ → Moment) (action vendor : String) (amount : p.Float) (actor : String)
      (context : Dict (Value p.Float)) (threshold : Option p.Float) (s : Store) (r : Record)
      → member action valid_actions ≡ true
      → p.lt amount (p.of_ℕ 0) ≡ false
      → requires_approval amount threshold ≡ ok true
      → get (request_id action vendor amount (t 0)) s ≡ some r
      → r.status ≡ approved
      → enforce_spend t action vendor amount actor context threshold s ≡ (ok r, s)
  unfolding enforce_spend validate_inputs enforce_over is_approved check contains
  spend_approved t action vendor amount actor context threshold s r valid nonneg over here granted =
      ground arith

  -- A spend over the threshold of which there is no record.
  spend_refused :
      (t : ℕ → Moment) (action vendor : String) (amount : p.Float) (actor : String)
      (context : Dict (Value p.Float)) (threshold : Option p.Float) (s : Store)
      → member action valid_actions ≡ true
      → p.lt amount (p.of_ℕ 0) ≡ false
      → requires_approval amount threshold ≡ ok true
      → get (request_id action vendor amount (t 0)) s ≡ none
      → (t 3).day ≡ (t 0).day
      → let rid = request_id action vendor amount (t 0) in
        enforce_spend t action vendor amount actor context threshold s ≡ (
          err (approval_required rid),
          put rid (new_record rid action vendor amount context (t 4).secs default_ttl) s,
        )
  unfolding enforce_spend validate_inputs enforce_over refuse create_request contains
  spend_refused t action vendor amount actor context threshold s valid nonneg over fresh same_day =
      ground (arith, request_id-day action vendor amount (t 0) (t 3) same_day)

  -- Of a valid spend over the threshold there is no record yet. It is refused; the request is approved
  -- no later than a day after it was made; then the same spend, on the same day as the first, succeeds:
  -- it returns the approved record and leaves the store as the decision left it.
  pub spend_after_approval :
      (t t' t'' : ℕ → Moment) (action vendor : String) (amount : p.Float) (actor by : String)
      (context : Dict (Value p.Float)) (threshold : Option p.Float) (s : Store)
      → member action valid_actions ≡ true
      → p.lt amount (p.of_ℕ 0) ≡ false
      → requires_approval amount threshold ≡ ok true
      → get (request_id action vendor amount (t 0)) s ≡ none
      → (t 3).day ≡ (t 0).day
      → (t' 0).secs ≤ (t 4).secs + default_ttl
      → (t'' 0).day ≡ (t 0).day
      → let rid = request_id action vendor amount (t 0) in
        let asked = enforce_spend t action vendor amount actor context threshold s in
        let settled = decide t' rid true by asked.1 in
        (asked.0 ≡ err (approval_required rid))
        × ((r : Record) × (settled.0 ≡ ok r)
            × (r.status ≡ approved)
            × (enforce_spend t'' action vendor amount actor context threshold settled.1
                ≡ (ok r, settled.1)))
  spend_after_approval t t' t'' action vendor amount actor by context threshold s valid nonneg over
        fresh same_day in_time again =
      let rid = request_id action vendor amount (t 0) in
      let made = new_record rid action vendor amount context (t 4).secs default_ttl in
      let done = decided made true (t' 0).secs by in
      let s1 = put rid made s in
      let s2 = put rid done s1 in
      let refused =
        spend_refused t action vendor amount actor context threshold s valid nonneg over fresh
          same_day in
      let approves =
        decide_in_time t' rid by s1 made
          (ground (arith, get-put rid rid made s, str_eq_iff rid rid)) refl in_time in
      let passes =
        spend_approved t'' action vendor amount actor context threshold s2 done valid nonneg over
          (ground (
            arith,
            get-put rid rid done s1,
            str_eq_iff rid rid,
            request_id-day action vendor amount (t 0) (t'' 0) again,
          ))
          refl in
      rw (refused, approves) (refl, (done, refl, refl, passes))
