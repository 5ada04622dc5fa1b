-- ===== src/Switch/Cascade.antt =====
-- What a switch of vendors leaves behind (procurement/vendor_switcher.py).
use mathlib.Core.Path.{subst}
use nemoclaw_smb.Base.{
  ◌+◌, ◌≡◌, ◌⊎◌, inl, inr, refl, sym, ap, ◌∙◌, String, none, some, [], ◌∷◌, ◌++◌, arith,
}
use nemoclaw_smb.Base.Dict.{Dict}
use nemoclaw_smb.Base.Act.{Result, Error, ok, err, Plain-cases}
use nemoclaw_smb.Json.{Value}
use nemoclaw_smb.Platform.{Platform}
use nemoclaw_smb.Policy.{Decision, check_policy}
use nemoclaw_smb.Graph.{add_vendor}
use nemoclaw_smb.Ledger.{ledger_entry, reconcile}
use nemoclaw_smb.Stripe.Subscriptions.{create_subscription}
use nemoclaw_smb.World.{World}
use nemoclaw_smb.World.Logged.{IsLogged, IsLogged-none, IsLogged-then, on_audit-cases}
use nemoclaw_smb.Switch.{
  NewVendor, Switched, category_or, enter_switch, switch_metadata, switch_vendor, switched, today,
}

module _ ⦃p : Platform⦄ where
  -- The new vendor has a subscription, an entry in the ledger and a node in the graph.
  abbrev pub IsProvided : NewVendor → World → World → Type 0
  IsProvided v w w' =
      (made : Dict (Value p.Float)) × (create_subscription (w.tick + 2) v.vendor v.amount ≡ ok made)
      × (w'.ledger
          ≡ w.ledger
            ++ (ledger_entry (p.clock (w.tick + 2 + 5)) made (some "saas")
                  (some (today (p.clock (w.tick + 2 + 5)).iso))
                ∷ []))
      × (w'.graph ≡ add_vendor v.vendor (some (category_or v.category)) w.graph)

  abbrev IsEntered : NewVendor → World → Result Switched × World → Type 0
  IsEntered v w (r, w') =
      (((s : Switched) × (r ≡ ok s)
          × (s.outcome ≡ "switched")
          × IsLogged (("switched", v.amount) ∷ []) w w')
        ⊎ ((x : Error) × (r ≡ err x) × IsLogged [] w w'))
      × (w'.ledger ≡ w.ledger)
      × (w'.graph ≡ add_vendor v.vendor (some (category_or v.category)) w.graph)

  enter_switch-IsEntered :
      (old : String) (v : NewVendor) (policy : Decision) (made posted : Dict (Value p.Float))
      (w : World)
      → IsEntered v w (enter_switch old v policy made posted w)
  unfolding enter_switch
  enter_switch-IsEntered old v policy made posted w =
      let g = add_vendor v.vendor (some (category_or v.category)) w.graph in
      let w1 : World = record w { graph = g } in
      let start = IsLogged-none w w1 refl in
      let step : (r : Result Switched × World)
          → enter_switch old v policy made posted w ≡ r
          → IsEntered v w r
          → IsEntered v w (enter_switch old v policy made posted w) =
        λ r same says. subst (IsEntered v w) (sym same) says in
      elim (on_audit-cases "vendor_switch" v.vendor v.amount "switched"
        "procurement.vendor_switcher" (switch_metadata old v) w1) [
          | inl (entry, w2, done, logged) ↦
              step (ok (switched old v policy made posted entry w2), w2) (ground arith)
                (
                  inl (
                    switched old v policy made posted entry w2,
                    refl,
                    refl,
                    IsLogged-then w w1 w2 start logged,
                  ),
                  sym (ap (λ r. r.1.ledger) done),
                  sym (ap (λ r. r.1.graph) done),
                )
          | inr (x, w2, failed, same) ↦
              step (err x, w2) (ground arith)
                (
                  inr (x, refl, IsLogged-then w w1 w2 start same),
                  sym (ap (λ r. r.1.ledger) failed),
                  sym (ap (λ r. r.1.graph) failed),
                )
        ]

  abbrev pub IsSwitched : NewVendor → World → Result Switched × World → Type 0
  IsSwitched v w (r, w') =
      ((s : Switched) × (d : Decision) × (r ≡ ok s)
        × (check_policy w.tick v.vendor v.amount "agent" none ≡ ok d)
        × (s.outcome ≡ "switched")
        × IsProvided v w w'
        × IsLogged (("switched", v.amount) ∷ []) w w')
      ⊎ ((x : Error) × (r ≡ err x)
          × IsLogged [] w w'
          × ((((check_policy w.tick v.vendor v.amount "agent" none ≡ err x)
                  ⊎ (create_subscription (w.tick + 2) v.vendor v.amount ≡ err x))
                × (w'.ledger ≡ w.ledger)
                × (w'.graph ≡ w.graph))
              ⊎ IsProvided v w w'))

  entered-IsSwitched :
      (v : NewVendor) (w w3 : World) (d : Decision) (made : Dict (Value p.Float))
      → check_policy w.tick v.vendor v.amount "agent" none ≡ ok d
      → create_subscription (w.tick + 2) v.vendor v.amount ≡ ok made
      → w3.audit ≡ w.audit
      → w3.graph ≡ w.graph
      → (w3.ledger
          ≡ w.ledger
            ++ (ledger_entry
                  (p.clock (w.tick + 2 + 5))
                  made
                  (some "saas")
                  (some (today (p.clock (w.tick + 2 + 5)).iso))
                ∷ []))
      → (done : Result Switched × World) → IsEntered v w3 done
      → IsSwitched v w done
  entered-IsSwitched v w w3 d made checked created untouched graph posted (r, w')
        (inl (s, is_ok, outcome, logged), ledger, added) =
      inl (
        s,
        d,
        is_ok,
        checked,
        outcome,
        (
          made,
          created,
          ledger ∙ posted,
          added ∙ ap (λ g. add_vendor v.vendor (some (category_or v.category)) g) graph,
        ),
        IsLogged-then w w3 w' (IsLogged-none w w3 untouched) logged,
      )
  entered-IsSwitched v w w3 d made checked created untouched graph posted (r, w')
        (inr (x, failed, logged), ledger, added) =
      inr (
        x,
        failed,
        IsLogged-then w w3 w' (IsLogged-none w w3 untouched) logged,
        inr (
          made,
          created,
          ledger ∙ posted,
          added ∙ ap (λ g. add_vendor v.vendor (some (category_or v.category)) g) graph,
        ),
      )

  -- If a switch of vendors succeeds, then the policy gave a decision, which may be a denial, the outcome
  -- is "switched", the new vendor has a subscription, one new entry in the ledger and a node in the
  -- graph, and the audit log has grown by exactly one entry, "switched", for the new vendor's amount.
  -- If it raises, then the audit log has not grown, and either the policy or the subscription raised
  -- this, and the ledger and the graph are as before, or the subscription, the entry in the ledger and
  -- the node are already there. So no decision of the policy stops a switch.
  pub switch_vendor_lem :
      (old : String) (v : NewVendor) (w : World) → IsSwitched v w (switch_vendor old v w)
  unfolding switch_vendor reconcile
  switch_vendor_lem old v w =
      let done = switch_vendor old v w in
      let w1 : World = record w { tick = w.tick + 2 } in
      let w2 : World = record w { tick = w.tick + 2 + 5 } in
      let step : (r : Result Switched × World) → done ≡ r → IsSwitched v w r → IsSwitched v w done =
        λ r same says. subst (IsSwitched v w) (sym same) says in
      elim (Plain-cases (check_policy w.tick v.vendor v.amount "agent" none)) [
        | inr (x, failed) ↦
            step (err x, w1) (ground arith)
              (inr (x, refl, IsLogged-none w w1 refl, inl (inl failed, refl, refl)))
        | inl (d, checked) ↦
            elim (Plain-cases (create_subscription (w.tick + 2) v.vendor v.amount)) [
              | inr (x, failed) ↦
                  step (err x, w2) (ground arith)
                    (inr (x, refl, IsLogged-none w w2 refl, inl (inr failed, refl, refl)))
              | inl (made, created) ↦
                  let now = p.clock (w.tick + 2 + 5) in
                  let posted = ledger_entry now made (some "saas") (some (today now.iso)) in
                  let w3 : World = record w {
                    tick = w.tick + 2 + 5 + 1;
                    ledger = w.ledger ++ (posted ∷ []);
                  } in
                  step (enter_switch old v d made posted w3) (ground arith) (
                    entered-IsSwitched v w w3 d made checked created refl refl refl
                      (enter_switch old v d made posted w3)
                      (enter_switch-IsEntered old v d made posted w3))
            ]
      ]
