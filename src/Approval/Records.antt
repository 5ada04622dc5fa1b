-- ===== src/Approval/Records.antt =====
-- The life of an approval record (agent/require_approval.py): only a decision approves, in time, and
-- a decision is final.
use nemoclaw_smb.Base.{
  ℕ, ◌+◌, ◌≤◌, ◌≡◌, ◌⊎◌, inl, inr, refl, sym, ◌∙◌, String, Bool, true, false, ◌&&◌, Option, some,
  List, [], ◌∷◌, arith, str_eq, ltb, Bool-cases, Option-cases, member,
}
use mathlib.Core.Path.{subst}
use mathlib.Core.Option.{some-injective}
use nemoclaw_smb.Base.Dict.{Dict, get, put, contains, get-put}
use nemoclaw_smb.Base.Act.{Result-cases}
use nemoclaw_smb.Json.{Value}
use nemoclaw_smb.Platform.{Platform, Moment}
use nemoclaw_smb.Approval.{
  Record, Store, approved, expired, is_pending, create_request, decide, check, is_approved, refuse,
  enforce_over, enforce_spend, default_ttl, new_record, request_id, validate_inputs, decided,
  valid_actions,
}

module _ ⦃p : Platform⦄ where
  -- An approved record names who decided and when, and that was not after it expired.
  pub record IsDecided (r : Record) (at : ℕ) (by : String) : Type 0 where
    pub when : r.decided_at ≡ some at
    pub who : r.decided_by ≡ some by
    pub in_time : at ≤ r.expires_at

  abbrev pub IsSound : Record → Type 0
  IsSound r = r.status ≡ approved → (at : ℕ) × (by : String) × IsDecided r at by

  abbrev pub Sound : Store → Type 0
  Sound s = (rid : String) (r : Record) → get rid s ≡ some r → IsSound r

  put-Sound : (k : String) (v : Record) (s : Store) → Sound s → IsSound v → Sound (put k v s)
  put-Sound k v s sound new rid r h = elim (Bool-cases (str_eq k rid)) [
    | inl e ↦ subst IsSound (some-injective _ _ (sym (get_put_at e) ∙ h)) new
    | inr e ↦ sound rid r (ground (arith, get-put k rid v s))
  ]
    where
      get_put_at : str_eq k rid ≡ true → get rid (put k v s) ≡ some v
      get_put_at e = rw (get-put, e)

  -- A call changes nothing, or writes one record that is sound.
  abbrev Writes : Store → Store → Type 0
  Writes s s' = (s' ≡ s) ⊎ ((k : String) × (v : Record) × IsSound v × (s' ≡ put k v s))

  Writes-Sound : (s s' : Store) → Writes s s' → Sound s → Sound s'
  Writes-Sound s s' (inl same) sound = subst Sound (sym same) sound
  Writes-Sound s s' (inr (k, v, new, wrote)) sound =
      subst Sound (sym wrote) (put-Sound k v s sound new)

  -- The valid arguments are those with which `create_request` goes on.
  create_request-Writes :
      (t : ℕ → Moment) (action vendor : String) (amount : p.Float) (context : Dict (Value p.Float))
      (ttl : ℕ) (s : Store)
      → Writes s (create_request t action vendor amount context ttl s).1
  unfolding create_request validate_inputs
  create_request-Writes t action vendor amount context ttl s =
      let rid = request_id action vendor amount (t 0) in
      let fresh = new_record rid action vendor amount context (t 1).secs ttl in
      elim (Bool-cases (member action valid_actions)) [
        | inr invalid ↦ inl (ground arith)
        | inl valid ↦ elim (Bool-cases (p.lt amount (p.of_ℕ 0))) [
          | inl negative ↦ inl (ground arith)
          | inr nonneg ↦ elim (Option-cases (get rid s)) [
            | inl e ↦ inr (rid, fresh, (λ h. cc h), ground arith)
            | inr (r, e) ↦ elim (Bool-cases (is_pending r.status)) [
              | inl waits ↦ inl (ground arith)
              | inr old ↦ inr (rid, fresh, (λ h. cc h), ground arith)
            ]
          ]
        ]
      ]

  decide-Writes :
      (t : ℕ → Moment) (rid : String) (approve : Bool) (by : String) (s : Store)
      → Writes s (decide t rid approve by s).1
  unfolding decide
  decide-Writes t rid approve by s = elim (Option-cases (get rid s)) [
    | inl e ↦ inl (ground arith)
    | inr (r, e) ↦ elim (Bool-cases (is_pending r.status)) [
      | inr settled ↦ inl (ground arith)
      | inl waits ↦ elim (Bool-cases (ltb r.expires_at (t 0).secs)) [
        | inl late ↦ inr (rid, record r { status = expired }, (λ h. cc h), ground arith)
        | inr in_time ↦ inr (
          rid,
          decided r approve (t 0).secs by,
          λ _. ((t 0).secs, by, record { when = refl; who = refl; in_time = ground arith }),
          ground arith,
        )
      ]
    ]
  ]

  check-Writes : (t : ℕ → Moment) (rid : String) (s : Store) → Writes s (check t rid s).1
  unfolding check
  check-Writes t rid s = elim (Option-cases (get rid s)) [
    | inl e ↦ inl (ground arith)
    | inr (r, e) ↦ elim (Bool-cases (is_pending r.status && ltb r.expires_at (t 0).secs)) [
      | inr stays ↦ inl (ground arith)
      | inl late ↦ inr (rid, record r { status = expired }, (λ h. cc h), ground arith)
    ]
  ]

  is_approved-Sound :
      (t : ℕ → Moment) (rid : String) (s : Store) → Sound s → Sound (is_approved t rid s).1
  unfolding is_approved
  is_approved-Sound t rid s sound =
      subst Sound (ground arith) (Writes-Sound s (check t rid s).1 (check-Writes t rid s) sound)

  refuse-Sound :
      (t : ℕ → Moment) (action vendor : String) (amount : p.Float) (context : Dict (Value p.Float))
      (s : Store)
      → Sound s
      → Sound (refuse t action vendor amount context s).1
  unfolding refuse
  refuse-Sound t action vendor amount context s sound = subst Sound (ground arith) (
      Writes-Sound s (create_request t action vendor amount context default_ttl s).1
        (create_request-Writes t action vendor amount context default_ttl s) sound)

  enforce_over-Sound :
      (t : ℕ → Moment) (action vendor : String) (amount : p.Float) (context : Dict (Value p.Float))
      (s : Store)
      → Sound s
      → Sound (enforce_over t action vendor amount context s).1
  unfolding enforce_over
  enforce_over-Sound t action vendor amount context s sound =
      let rid = request_id action vendor amount (t 0) in
      let s1 = (is_approved (λ i. t (1 + i)) rid s).1 in
      let sound1 = is_approved-Sound (λ i. t (1 + i)) rid s sound in
      elim (Bool-cases (contains rid s)) [
        | inr e ↦
            subst Sound (ground arith)
              (refuse-Sound (λ i. t (3 + i)) action vendor amount context s sound)
        | inl e ↦ elim (Result-cases (is_approved (λ i. t (1 + i)) rid s)) [
          | inl (true, s2, found) ↦ subst Sound (ground arith) (
              Writes-Sound s1 (check (λ i. t (2 + i)) rid s1).1
                (check-Writes (λ i. t (2 + i)) rid s1) sound1)
          | inl (false, s2, found) ↦
              subst Sound (ground arith)
                (refuse-Sound (λ i. t (3 + i)) action vendor amount context s1 sound1)
          | inr (x, s2, found) ↦ subst Sound (ground arith) sound1
        ]
      ]

  enforce_spend-Sound :
      (t : ℕ → Moment) (action vendor : String) (amount : p.Float) (actor : String)
      (context : Dict (Value p.Float)) (threshold : Option p.Float) (s : Store)
      → Sound s
      → Sound (enforce_spend t action vendor amount actor context threshold s).1
  unfolding enforce_spend validate_inputs
  enforce_spend-Sound t action vendor amount actor context threshold s sound =
      elim (Stays-cases t action vendor amount actor context threshold s) [
        | inl same ↦ subst Sound (sym same) sound
        | inr over ↦
            subst Sound (sym over) (enforce_over-Sound t action vendor amount context s sound)
      ]
    where
      Stays-cases :
          (t : ℕ → Moment) (action vendor : String) (amount : p.Float) (actor : String)
          (context : Dict (Value p.Float)) (threshold : Option p.Float) (s : Store)
          → let s' = (enforce_spend t action vendor amount actor context threshold s).1 in
            (s' ≡ s) ⊎ (s' ≡ (enforce_over t action vendor amount context s).1)
      Stays-cases t action vendor amount actor context threshold s = ground arith

  -- What the code around the gate can call, with the clock readings of the call.
  pub data Call : Type 0 where
    create : (ℕ → Moment) → String → String → p.Float → Dict (Value p.Float) → ℕ → Call
    settle : (ℕ → Moment) → String → Bool → String → Call
    look : (ℕ → Moment) → String → Call
    spend :
        (ℕ → Moment)
        → String
        → String
        → p.Float
        → String
        → Dict (Value p.Float)
        → Option p.Float
        → Call

  abbrev pub after : Call → Store → Store
  after (create t action vendor amount context ttl) s =
      (create_request t action vendor amount context ttl s).1
  after (settle t rid approve by) s = (decide t rid approve by s).1
  after (look t rid) s = (check t rid s).1
  after (spend t action vendor amount actor context threshold) s =
      (enforce_spend t action vendor amount actor context threshold s).1

  abbrev pub after_all : List Call → Store → Store
  after_all [] s = s
  after_all (c ∷ cs) s = after_all cs (after c s)

  after-Sound : (c : Call) (s : Store) → Sound s → Sound (after c s)
  after-Sound (create t action vendor amount context ttl) s sound =
      Writes-Sound s _ (create_request-Writes t action vendor amount context ttl s) sound
  after-Sound (settle t rid approve by) s sound =
      Writes-Sound s _ (decide-Writes t rid approve by s) sound
  after-Sound (look t rid) s sound = Writes-Sound s _ (check-Writes t rid s) sound
  after-Sound (spend t action vendor amount actor context threshold) s sound =
      enforce_spend-Sound t action vendor amount actor context threshold s sound

  -- Whatever is called in whatever order on a sound store, such as the empty one, each record that
  -- is approved afterwards names a time and a person of a decision, and that time is not after the
  -- record's expiry.
  pub after_all-Sound : (cs : List Call) (s : Store) → Sound s → Sound (after_all cs s)
  after_all-Sound [] s sound = sound
  after_all-Sound (c ∷ cs) s sound = after_all-Sound cs (after c s) (after-Sound c s sound)
