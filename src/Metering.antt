-- ===== src/Metering.antt =====
-- The monthly invoices of the owners (payments/metronome.py).
pub mod Totals
use nemoclaw_smb.Base.{ℕ, ◌+◌, String, none, some, List, [], ◌∷◌, ◌++◌, concat}
use nemoclaw_smb.Base.Dict.{get}
use nemoclaw_smb.Base.Act.{Result, ok, err, key_error}
use nemoclaw_smb.Platform.{Platform}
use nemoclaw_smb.MockLedger.{Property, fee_of, list_properties_for_owner, properties, revenue_of}
use nemoclaw_smb.Money.{stable_id}

module _ ⦃p : Platform⦄ where
  open p use {Float}

  pub record InvoiceLine : Type 0 where
    pub property_id : String
    pub property_name : String
    pub revenue_cents : ℕ
    pub fee_pct : Float
    pub fee_cents : ℕ
    pub description : String

  pub record OwnerInvoice : Type 0 where
    pub owner_id : String
    pub month : String
    pub invoice_id : String
    pub line_items : List InvoiceLine
    pub total_revenue_cents : ℕ
    pub total_fee_cents : ℕ
    pub backend : String

  -- 0.005
  abbrev pub platform_fee_pct : Float
  platform_fee_pct = p.div (p.of_ℕ 5) (p.of_ℕ 1000)

  -- One line: the contract's share of the revenue and the platform's, each cut to whole cents.
  unfoldable pub invoice_line : String → Property → InvoiceLine
  invoice_line property_id prop =
      let revenue = revenue_of property_id in
      let pct = prop.management_contract_pct in
      record {
        property_id = property_id;
        property_name = prop.name;
        revenue_cents = revenue;
        fee_pct = p.add pct platform_fee_pct;
        fee_cents = fee_of revenue pct + fee_of revenue platform_fee_pct;
        description = concat (
            p.show_int (p.trunc (p.mul pct (p.of_ℕ 100)))
            ∷ "% mgmt + 0.5% platform on $"
            ∷ p.show_fixed 2 (p.div (p.of_ℕ revenue) (p.of_ℕ 100))
            ∷ " revenue"
            ∷ []);
      }

  unfoldable pub with_line : InvoiceLine → OwnerInvoice → OwnerInvoice
  with_line line invoice = record invoice {
    line_items = invoice.line_items ++ (line ∷ []);
    total_revenue_cents = invoice.total_revenue_cents + line.revenue_cents;
    total_fee_cents = invoice.total_fee_cents + line.fee_cents;
  }

  -- the loop of `calculate_ubp` on the invoice so far
  unfoldable pub itemize : List String → OwnerInvoice → Result OwnerInvoice
  itemize [] invoice = ok invoice
  itemize (pid ∷ rest) invoice = elim (get pid properties) [
    | none ↦ err key_error
    | some prop ↦ itemize rest (with_line (invoice_line pid prop) invoice)
  ]

  unfoldable pub calculate_ubp : String → String → Result OwnerInvoice
  calculate_ubp owner_id month = itemize (list_properties_for_owner owner_id) (record {
    owner_id = owner_id;
    month = month;
    invoice_id = stable_id "inv_" (owner_id ∷ month ∷ []);
    line_items = [];
    total_revenue_cents = 0;
    total_fee_cents = 0;
    backend = "mock";
  })
