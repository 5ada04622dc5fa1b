-- ===== src/Money/Accounts.antt =====
-- The cache of connected accounts (payments/connect.py).
use mathlib.Core.Path.{subst}
use nemoclaw_smb.Base.{
  ◌+◌, ◌≡◌, ◌⊎◌, inl, inr, refl, ap, ◌∙◌, String, none, some, List, [], ◌∷◌, arith, Option-cases,
  str_eq_iff,
}
use nemoclaw_smb.Base.Dict.{Dict, get, put, get-put}
use nemoclaw_smb.Base.Act.{Error, ok, err, Result-cases, bind_ok, bind_inv}
use nemoclaw_smb.Platform.{Platform}
use nemoclaw_smb.World.{World, ConnectedAccount}
use nemoclaw_smb.Audit.{append_action}
use nemoclaw_smb.Chain.{File}
use nemoclaw_smb.Money.{
  account_metadata, account_of, provision, ensure_one, ensure_all, ensure_owner_accounts,
}

module _ ⦃p : Platform⦄ where
  -- An account that is cached stays cached.
  abbrev Keeps : World → World → Type 0
  Keeps w w' =
      (owner : String) (a : ConnectedAccount)
      → get owner w.accounts ≡ some a
      → get owner w'.accounts ≡ some a

  -- Provisioning leaves the account in the cache, also where the audit log then refuses the entry.
  provision-cases :
      (owner : String) (w : World)
      → let made : File → World = λ file. record w {
        tick = w.tick + 1;
        audit = file;
        accounts = put owner (account_of owner) w.accounts;
      } in
        (file : File) × ((provision owner w ≡ (ok (account_of owner), made file))
          ⊎ ((x : Error) × (provision owner w ≡ (err x, made file))))
  unfolding provision
  provision-cases owner w =
      elim (Result-cases (
        append_action (p.clock w.tick) "access_change" "stripe-connect" (p.of_ℕ 0)
          "account_provisioned" "property-mgmt-agent" (account_metadata owner) w.audit)) [
            | inl (e, file, done) ↦ (file, inl (ground arith))
            | inr (x, file, failed) ↦ (file, inr (x, ground arith))
          ]

  put-Keeps :
      (owner : String) (w w' : World)
      → get owner w.accounts ≡ none
      → w'.accounts ≡ put owner (account_of owner) w.accounts
      → (get owner w'.accounts ≡ some (account_of owner)) × Keeps w w'
  put-Keeps owner w w' fresh made = (
    ap (get owner) made
        ∙ ground (arith, get-put owner owner (account_of owner) w.accounts, str_eq_iff owner owner),
    λ other a here.
        ap (get other) made
        ∙ ground (arith, get-put owner other (account_of owner) w.accounts, str_eq_iff owner other),
  )

  ensure_one_lem :
      (owner : String) (w : World) {a : ConnectedAccount} {w' : World}
      → ensure_one owner w ≡ (ok a, w')
      → (get owner w'.accounts ≡ some a) × Keeps w w'
  unfolding ensure_one
  ensure_one_lem owner w {a} {w'} h = elim (Option-cases (get owner w.accounts)) [
    | inr (b, here) ↦ (ground arith, λ other c there. ground arith)
    | inl fresh ↦
        let (file, outcome) = provision-cases owner w in
        elim outcome [
          | inr (x, failed) ↦ ground arith
          | inl done ↦
              let w1 : World = record w {
                tick = w.tick + 1;
                audit = file;
                accounts = put owner (account_of owner) w.accounts;
              } in
              let (here, keeps) = put-Keeps owner w w1 fresh refl in
              let same : (account_of owner ≡ a) × (w1 ≡ w') = (ground arith, ground arith) in
              (
                subst (λ v. get owner v.accounts ≡ some a) same.1 (here ∙ ap some same.0),
                subst (λ v. Keeps w v) same.1 keeps,
              )
        ]
  ]

  ensure_all-Keeps :
      (owners : List String) (found : Dict ConnectedAccount) (w : World)
      {accounts : Dict ConnectedAccount} {w' : World}
      → ensure_all owners found w ≡ (ok accounts, w')
      → Keeps w w'
  unfolding ensure_all
  ensure_all-Keeps [] found w h owner a here = ground arith
  ensure_all-Keeps (o ∷ os) found w h owner a here =
      let (b, w1, first, rest) = bind_inv (ensure_one o) (λ b. ensure_all os (put o b found)) w h in
      ensure_all-Keeps os (put o b found) w1 rest owner a
        ((ensure_one_lem o w first).1 owner a here)

  -- An owner that is in the cache is looked up.
  ensure_one_cached :
      (owner : String) (w : World) {a : ConnectedAccount}
      → get owner w.accounts ≡ some a
      → ensure_one owner w ≡ (ok a, w)
  unfolding ensure_one
  ensure_one_cached owner w here = ground arith

  ensure_all_again :
      (owners : List String) (found : Dict ConnectedAccount) (w : World)
      {accounts : Dict ConnectedAccount} {w' : World}
      → ensure_all owners found w ≡ (ok accounts, w')
      → ensure_all owners found w' ≡ (ok accounts, w')
  unfolding ensure_all
  ensure_all_again [] found w h = ground arith
  ensure_all_again (o ∷ os) found w {accounts} {w'} h =
      let (b, w1, first, rest) = bind_inv (ensure_one o) (λ b. ensure_all os (put o b found)) w h in
      let cached = ensure_all-Keeps os (put o b found) w1 rest o b ((ensure_one_lem o w first).0) in
      bind_ok (ensure_one o) (λ b. ensure_all os (put o b found)) w' (ensure_one_cached o w' cached)
      ∙ ensure_all_again os (put o b found) w1 rest

  -- Once accounts have been ensured for some owners, ensuring them again returns the same accounts and
  -- changes nothing: no account is made twice and no entry is written.
  pub ensure_owner_accounts_again :
      (owners : List String) (w : World) {accounts : Dict ConnectedAccount} {w' : World}
      → ensure_owner_accounts owners w ≡ (ok accounts, w')
      → ensure_owner_accounts owners w' ≡ (ok accounts, w')
  unfolding ensure_owner_accounts
  ensure_owner_accounts_again owners w h = ensure_all_again owners [] w h
