-- ===== src/Portfolio.antt =====
-- The property management agent (acts/property_mgmt_agent.py): a card for the cleaner on checkout, the
-- payouts and invoices of a month, and the summary of the portfolio.
pub mod Checkout
use nemoclaw_smb.Base.{
  ℕ, ◌+◌, ◌%◌, String, Bool, true, false, Option, none, some, List, [], ◌∷◌, concat, length, map,
  nth, sort, str_eq, str_le, if◌then◌else◌,
}
use nemoclaw_smb.Base.Dict.{Dict}
use nemoclaw_smb.Base.Act.{Act, Result, ok, err, permission_error, value_error, ◌>>=◌, ◌>>◌, lift}
use nemoclaw_smb.Platform.{Platform}
use nemoclaw_smb.Governance.{AuthorizeResult, Nhi, authorize, issue_nhi}
use nemoclaw_smb.Metering.{OwnerInvoice, calculate_ubp}
use nemoclaw_smb.MockLedger.{
  Member, Property, crew, list_properties_for_owner, monthly_revenue, properties,
}
use nemoclaw_smb.Money.{
  CleanerCardResult, PayoutBatch, default_amount_cents, ensure_owner_accounts, issue_cleaner_card,
  run_payouts,
}
use nemoclaw_smb.World.{World}

pub record PortfolioSummary : Type 0 where
  pub property_count : ℕ
  pub owner_count : ℕ
  pub total_monthly_revenue_cents : ℕ
  pub property_ids : List String
  pub owner_ids : List String
  pub properties_by_owner : Dict (List String)

-- `list.index`, where `none` is a `ValueError`
unfoldable pub index_of : String → List String → Option ℕ
index_of s [] = none
index_of s (t ∷ ts) =
    let later = index_of s ts in
    if str_eq t s then some 0 else elim later [ none ↦ none | some n ↦ some (1 + n) ]

unfoldable pub cleaners : List Member → List Member
cleaners [] = []
cleaners (m ∷ ms) = let rest = cleaners ms in if str_eq m.role "cleaner" then m ∷ rest else rest

abbrev sum : Dict ℕ → ℕ
sum [] = 0
sum ((_, n) ∷ d) = n + sum d

module _ ⦃p : Platform⦄ where
  abbrev pub property_ids : List String
  property_ids = sort str_le (map (λ (e : String × Property). e.0) properties)

  -- `_OWNER_IDS`, in the order that Python's set gives
  abbrev pub owner_ids : List String
  owner_ids = p.list_of_set (map (λ (e : String × Property). e.1.owner_id) properties)

  -- `_pick_cleaner`: an unknown property is a `ValueError`
  unfoldable pub pick_cleaner : String → Result Member
  pick_cleaner property_id = elim (index_of property_id property_ids) [
    | none ↦ err value_error
    | some i ↦ elim (nth (cleaners crew) (i % length (cleaners crew))) [
      | none ↦ err value_error
      | some m ↦ ok m
    ]
  ]

  abbrev pub cleaner_nhi : ℕ → Nhi
  cleaner_nhi tick = issue_nhi (p.clock tick) "cleaner-subagent" ("card:issue:cleaning" ∷ []) 3600

  -- the answer that the checkout at a reading of the clock gets
  abbrev pub card_decision : ℕ → AuthorizeResult
  card_decision tick = authorize tick (cleaner_nhi tick) "card:issue" "stripe-issuing"

  unfoldable pub issue_for : String → String → Act World CleanerCardResult
  issue_for property_id checkout_date = lift (pick_cleaner property_id) >>= λ cleaner.
      issue_cleaner_card (concat ("job-" ∷ property_id ∷ "-" ∷ checkout_date ∷ [])) property_id
        cleaner.id default_amount_cents

  unfoldable pub handle_checkout_event : String → String → Act World CleanerCardResult
  handle_checkout_event property_id checkout_date w =
      let w1 : World = record w { tick = w.tick + 2 } in
      if (card_decision w.tick).allowed
      then issue_for property_id checkout_date w1
      else (err permission_error, w1)

  pub run_month_end_payouts : String → Act World PayoutBatch
  run_month_end_payouts month = ensure_owner_accounts owner_ids >> run_payouts crew month

  -- the comprehension of `calculate_ubp_invoices`
  pub invoices_for : String → List String → Result (List OwnerInvoice)
  invoices_for month [] = ok []
  invoices_for month (owner ∷ rest) = elim (calculate_ubp owner month) [
    | err x ↦ err x
    | ok invoice ↦ elim (invoices_for month rest) [ err x ↦ err x | ok more ↦ ok (invoice ∷ more) ]
  ]

  pub calculate_ubp_invoices : String → Result (List OwnerInvoice)
  calculate_ubp_invoices month = invoices_for month owner_ids

  abbrev with_properties : List String → Dict (List String)
  with_properties [] = []
  with_properties (owner ∷ rest) = (owner, list_properties_for_owner owner) ∷ with_properties rest

  pub get_portfolio_summary : PortfolioSummary
  get_portfolio_summary = record {
    property_count = length properties;
    owner_count = length owner_ids;
    total_monthly_revenue_cents = sum monthly_revenue;
    property_ids = property_ids;
    owner_ids = sort str_le owner_ids;
    properties_by_owner = with_properties owner_ids;
  }
