-- ===== src/Approval/Pending.antt =====
-- The requests that wait for a decision (agent/require_approval.py).
use nemoclaw_smb.Base.{
  ℕ, ◌+◌, ◌≤◌, ◌≡◌, inl, inr, String, true, List, [], ◌∷◌, arith, leb, sort, All, Bool-cases,
}
use nemoclaw_smb.Platform.{Platform, Moment}
use nemoclaw_smb.Approval.{Record, Status, Store, by_id, is_pending, list_pending, pending, waiting}

module _ ⦃p : Platform⦄ where
  -- A record among those at hand that was pending and not expired at one of the readings.
  abbrev pub IsWaiting : (ℕ → Moment) → Record → Type 0
  IsWaiting t r = (r.status ≡ pending) × ((i : ℕ) × ((t i).secs ≤ r.expires_at))

  IsWaiting-later :
      (t : ℕ → Moment) (rs : List Record)
      → All (IsWaiting (λ i. t (1 + i))) rs
      → All (IsWaiting t) rs
  IsWaiting-later t [] _ = tt
  IsWaiting-later t (r ∷ rs) ((here, (i, open_yet)), rest) =
      ((here, (1 + i, open_yet)), IsWaiting-later t rs rest)

  is_pending_iff : (s : Status) → is_pending s ≡ true → s ≡ pending
  is_pending_iff s h = ground arith

  waiting-IsWaiting :
      (t : ℕ → Moment) (rs : List (String × Record)) → All (IsWaiting t) (waiting t rs)
  unfolding waiting
  waiting-IsWaiting t [] = tt
  waiting-IsWaiting t ((rid, r) ∷ rest) =
      let others = IsWaiting-later t _ (waiting-IsWaiting (λ i. t (1 + i)) rest) in
      elim (Bool-cases (is_pending r.status)) [
        | inr settled ↦ rw (settled, waiting) others
        | inl waits ↦ elim (Bool-cases (leb (t 0).secs r.expires_at)) [
          | inr late ↦ rw (waits, late, waiting) others
          | inl open_yet ↦
              rw (waits, open_yet, waiting)
                ((is_pending_iff r.status waits, (0, ground arith)), others)
        ]
      ]

  -- Every request that is listed as pending has the status pending and had not expired at one of
  -- the readings of the clock.
  pub list_pending-IsWaiting : (t : ℕ → Moment) (s : Store) → All (IsWaiting t) (list_pending t s)
  unfolding list_pending
  list_pending-IsWaiting t s = waiting-IsWaiting t (sort by_id s)
