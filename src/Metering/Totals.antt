-- ===== src/Metering/Totals.antt =====
-- What an invoice adds up to (payments/metronome.py).
use mathlib.Core.List.{append_assoc, append-nil, map-append}
use nemoclaw_smb.Base.{
  ℕ, ◌+◌, ◌≡◌, inl, inr, refl, sym, ap, ◌∙◌, String, List, [], ◌∷◌, ◌++◌, map, arith, Bool-cases,
  str_eq, true, All,
}
use nemoclaw_smb.Base.Dict.{Dict, get, contains, get_of_contains}
use nemoclaw_smb.Base.Act.{ok}
use nemoclaw_smb.Platform.{Platform}
use nemoclaw_smb.MockLedger.{Property, list_properties_for_owner, owned_by, properties}
use nemoclaw_smb.Metering.{
  InvoiceLine, OwnerInvoice, calculate_ubp, invoice_line, itemize, with_line,
}

module _ ⦃p : Platform⦄ where
  abbrev pub fees : List InvoiceLine → ℕ
  fees [] = 0
  fees (l ∷ ls) = l.fee_cents + fees ls

  abbrev pub revenues : List InvoiceLine → ℕ
  revenues [] = 0
  revenues (l ∷ ls) = l.revenue_cents + revenues ls

  -- The totals of an invoice are the sums of its lines.
  pub record IsSummed (invoice : OwnerInvoice) : Type 0 where
    pub fee : invoice.total_fee_cents ≡ fees invoice.line_items
    pub revenue : invoice.total_revenue_cents ≡ revenues invoice.line_items

  fees-append : (ls ms : List InvoiceLine) → fees (ls ++ ms) ≡ fees ls + fees ms
  fees-append [] ms = omega arith
  fees-append (l ∷ ls) ms = omega (arith, fees-append ls ms)

  revenues-append : (ls ms : List InvoiceLine) → revenues (ls ++ ms) ≡ revenues ls + revenues ms
  revenues-append [] ms = omega arith
  revenues-append (l ∷ ls) ms = omega (arith, revenues-append ls ms)

  with_line-IsSummed :
      (line : InvoiceLine) (invoice : OwnerInvoice)
      → IsSummed invoice
      → IsSummed (with_line line invoice)
  unfolding with_line
  with_line-IsSummed line invoice summed = record {
    fee = ground (arith, summed.fee, fees-append invoice.line_items (line ∷ []));
    revenue = ground (arith, summed.revenue, revenues-append invoice.line_items (line ∷ []));
  }

  -- Each of these properties is in the registry.
  abbrev IsKnown : String → Type 0
  IsKnown pid = contains pid properties ≡ true

  abbrev AreKnown : List String → Type 0
  AreKnown = All IsKnown

  abbrev line_ids : OwnerInvoice → List String
  line_ids invoice = map (λ l. l.property_id) invoice.line_items

  itemize_lem :
      (pids : List String) (invoice : OwnerInvoice)
      → AreKnown pids
      → IsSummed invoice
      → (done : OwnerInvoice) × (itemize pids invoice ≡ ok done)
        × IsSummed done
        × (line_ids done ≡ line_ids invoice ++ pids)
  unfolding itemize with_line invoice_line
  itemize_lem [] invoice known summed = (invoice, refl, summed, sym (append-nil (line_ids invoice)))
  itemize_lem (pid ∷ pids) invoice (there, known) summed =
      let (prop, here) = get_of_contains pid properties there in
      let next = with_line (invoice_line pid prop) invoice in
      let (done, ran, total, ids) =
        itemize_lem pids next known (with_line-IsSummed (invoice_line pid prop) invoice summed) in
      (
        done,
        ground arith,
        total,
        ids
            ∙ ap (λ l. l ++ pids)
                (map-append (λ (l : InvoiceLine). l.property_id) invoice.line_items
                  (invoice_line pid prop ∷ []))
            ∙ append_assoc (line_ids invoice) (pid ∷ []) pids,
      )

  owned_by-AreKnown :
      (owner : String) (d : Dict Property)
      → AreKnown (map (λ (e : String × Property). e.0) d)
      → AreKnown (owned_by owner d)
  unfolding owned_by
  owned_by-AreKnown owner [] known = tt
  owned_by-AreKnown owner ((pid, prop) ∷ d) (here, known) =
      let others = owned_by-AreKnown owner d known in
      elim (Bool-cases (str_eq prop.owner_id owner)) [
        | inl e ↦ rw (e, owned_by) (here, others)
        | inr e ↦ rw (e, owned_by) others
      ]

  owned-AreKnown : (owner : String) → AreKnown (list_properties_for_owner owner)
  unfolding list_properties_for_owner properties contains get
  owned-AreKnown owner =
      owned_by-AreKnown owner properties (refl, (refl, (refl, (refl, (refl, tt)))))

  -- For every owner and month an invoice is made. It has one line for each property of the owner, in
  -- the order of the registry, and its totals are the sums of the fees and of the revenues of the
  -- lines.
  pub calculate_ubp_lem :
      (owner month : String)
      → (invoice : OwnerInvoice) × (calculate_ubp owner month ≡ ok invoice)
        × IsSummed invoice
        × (map (λ (l : InvoiceLine). l.property_id) invoice.line_items
            ≡ list_properties_for_owner owner)
  unfolding calculate_ubp
  calculate_ubp_lem owner month =
      itemize_lem (list_properties_for_owner owner) _ (owned-AreKnown owner)
        (record { fee = refl; revenue = refl })
