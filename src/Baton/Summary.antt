-- ===== src/Baton/Summary.antt =====
-- The seats of a resource against its grants (control_plane/baton_client.py).
use mathlib.Core.Path.{subst}
use nemoclaw_smb.Base.{
  ◌+◌, ◌≡◌, ◌∙◌, refl, sym, inl, inr, String, true, false, Option, none, some, List, [], ◌∷◌, ◌++◌,
  All, Bool-cases, arith, length, member, str_eq, str_eq_iff, if◌then◌else◌,
}
use nemoclaw_smb.Base.Members.{Pairwise}
use nemoclaw_smb.Base.Dict.{Dict, get, get-put, put}
use nemoclaw_smb.Platform.{Platform}
use nemoclaw_smb.Baton.{
  AccessGrant, Seats, no_seats, seats_or, summarize_from, summarize_seats, with_grant,
}

module _ ⦃p : Platform⦄ where
  -- the grants of a resource
  abbrev pub grants_on : String → List AccessGrant → List AccessGrant
  grants_on resource [] = []
  grants_on resource (g ∷ gs) =
      let rest = grants_on resource gs in if str_eq g.resource resource then g ∷ rest else rest

  -- the entry of a resource after some grants
  abbrev after : Option Seats → List AccessGrant → Option Seats
  after s [] = s
  after s (g ∷ gs) = after (some (with_grant g (seats_or s))) gs

  get-summarize_from :
      (r : String) (gs : List AccessGrant) (summary : Dict Seats)
      → get r (summarize_from gs summary) ≡ after (get r summary) (grants_on r gs)
  unfolding summarize_from
  get-summarize_from r [] summary = refl
  get-summarize_from r (g ∷ gs) summary =
      let seats = with_grant g (seats_or (get g.resource summary)) in
      get-summarize_from r gs (put g.resource seats summary)
      ∙ ground (arith, str_eq_iff g.resource r, get-put g.resource r seats summary)

  abbrev pub Differs : String → String → Type 0
  Differs a b = str_eq a b ≡ false

  -- What is known of an entry after some grants: `extra` were there before.
  record Counts (gs : List AccessGrant) (before s : Seats) : Type 0 where
    total : s.total ≡ before.total + length gs
    distinct : Pairwise Differs s.users
    kept : (u : String) → member u before.users ≡ true → member u s.users ≡ true
    seated : All (λ g. member g.principal s.users ≡ true) gs

  member-append :
      (u : String) (xs ys : List String)
      → member u (xs ++ ys) ≡ (if member u xs then true else member u ys)
  unfolding member
  member-append u [] ys = refl
  member-append u (x ∷ xs) ys = ground (arith, member-append u xs ys)

  Differs-last :
      (u : String) (xs : List String)
      → member u xs ≡ false
      → Pairwise Differs xs
      → Pairwise Differs (xs ++ (u ∷ []))
  unfolding member
  Differs-last u [] h pairs = (tt, tt)
  Differs-last u (x ∷ xs) h (first, pairs) = (
    append_one xs first (ground (arith, str_eq_iff u x, str_eq_iff x u)),
    Differs-last u xs (ground arith) pairs,
  )
    where
      append_one :
          (ys : List String) → All (Differs x) ys → Differs x u → All (Differs x) (ys ++ (u ∷ []))
      append_one [] all d = (d, tt)
      append_one (y ∷ ys) (here, all) d = (here, append_one ys all d)

  abbrev seated_by : List AccessGrant → Seats → Seats
  seated_by [] s = s
  seated_by (g ∷ gs) s = seated_by gs (with_grant g s)

  after-seated_by : (gs : List AccessGrant) (s : Seats) → after (some s) gs ≡ some (seated_by gs s)
  after-seated_by [] s = refl
  after-seated_by (g ∷ gs) s = after-seated_by gs (with_grant g s)

  with_grant-distinct :
      (g : AccessGrant) (s : Seats)
      → Pairwise Differs s.users
      → Pairwise Differs (with_grant g s).users
  unfolding with_grant
  with_grant-distinct g s pairs = elim (Bool-cases (member g.principal s.users)) [
    | inl e ↦ rw e pairs
    | inr e ↦ rw e (Differs-last g.principal s.users e pairs)
  ]

  with_grant-kept :
      (g : AccessGrant) (s : Seats) (u : String)
      → member u s.users ≡ true
      → member u (with_grant g s).users ≡ true
  unfolding with_grant
  with_grant-kept g s u h = ground (arith, member-append u s.users (g.principal ∷ []))

  with_grant-seated :
      (g : AccessGrant) (s : Seats) → member g.principal (with_grant g s).users ≡ true
  unfolding with_grant member
  with_grant-seated g s = ground (
    arith,
    member-append g.principal s.users (g.principal ∷ []),
    str_eq_iff g.principal g.principal,
  )

  seated_by-Counts :
      (gs : List AccessGrant) (s : Seats) → Pairwise Differs s.users → Counts gs s (seated_by gs s)
  unfolding with_grant
  seated_by-Counts [] s pairs = record {
    total = omega arith;
    distinct = pairs;
    kept = λ u h. h;
    seated = tt;
  }
  seated_by-Counts (g ∷ gs) s pairs =
      let c = seated_by-Counts gs (with_grant g s) (with_grant-distinct g s pairs) in
      record {
        total = omega (arith, c.total);
        distinct = c.distinct;
        kept = λ u h. c.kept u (with_grant-kept g s u h);
        seated = (c.kept g.principal (with_grant-seated g s), c.seated);
      }

  -- What the summary says of the grants of a resource.
  abbrev pub IsSummed : List AccessGrant → Option Seats → Type 0
  IsSummed [] summed = summed ≡ none
  IsSummed (g ∷ gs) summed =
      (s : Seats) × (summed ≡ some s)
      × (s.total ≡ length (g ∷ gs))
      × Pairwise Differs s.users
      × All (λ h. member h.principal s.users ≡ true) (g ∷ gs)

  IsSummed-after : (gs : List AccessGrant) → IsSummed gs (after none gs)
  IsSummed-after [] = refl
  IsSummed-after (g ∷ gs) =
      let c = seated_by-Counts (g ∷ gs) no_seats tt in
      (
        seated_by (g ∷ gs) no_seats,
        after-seated_by gs (with_grant g no_seats),
        omega (arith, c.total),
        c.distinct,
        c.seated,
      )

  -- The summary has no entry for a resource without grants. Any other resource has an entry: its total
  -- is the number of its grants, no user is listed twice, and the user of each grant is listed.
  pub summarize_seats_lem :
      (grants : List AccessGrant) (resource : String)
      → IsSummed (grants_on resource grants) (get resource (summarize_seats grants))
  unfolding get
  summarize_seats_lem grants resource =
      subst (IsSummed (grants_on resource grants)) (sym (get-summarize_from resource grants []))
        (IsSummed-after (grants_on resource grants))
