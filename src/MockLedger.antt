-- ===== src/MockLedger.antt =====
-- The ledger of the demonstration (data/mock_ledger.py).
use nemoclaw_smb.Base.{ℕ, String, Bool, not, none, some, List, [], ◌∷◌, str_eq, if◌then◌else◌}
use nemoclaw_smb.Base.Dict.{Dict, get}
use nemoclaw_smb.Base.Act.{Result, ok, err, key_error}
use nemoclaw_smb.Base.Integers.{ℤ, difference, is_zero}
use nemoclaw_smb.Platform.{Platform}

pub record Member : Type 0 where
  pub id : String
  pub name : String
  pub role : String
  pub rate_cents : ℕ

abbrev member_of : String → String → String → ℕ → Member
member_of id name role rate_cents = record {
  id = id;
  name = name;
  role = role;
  rate_cents = rate_cents;
}

abbrev pub crew : List Member
crew =
    member_of "crew-001" "Maria S." "cleaner" 8500
    ∷ member_of "crew-002" "James T." "cleaner" 8500
    ∷ member_of "crew-003" "Falcon Maintenance" "maintenance" 15000
    ∷ []

-- in cents
abbrev pub monthly_revenue : Dict ℕ
monthly_revenue =
    ("prop-001", 420000)
    ∷ ("prop-002", 310000)
    ∷ ("prop-003", 195000)
    ∷ ("prop-004", 280000)
    ∷ ("prop-005", 255000)
    ∷ []

-- `MONTHLY_REVENUE.get(property_id, 0)`
abbrev pub revenue_of : String → ℕ
revenue_of property_id = elim (get property_id monthly_revenue) [ none ↦ 0 | some n ↦ n ]

module _ ⦃p : Platform⦄ where
  open p use {Float}

  pub record Property : Type 0 where
    pub name : String
    pub airbnb_id : String
    pub owner_id : String
    pub management_contract_pct : Float
    pub city : String
    pub state : String
    pub bedrooms : ℕ
    pub max_guests : ℕ

  -- the literal of so many hundredths
  abbrev pub hundredths : ℕ → Float
  hundredths n = p.div (p.of_ℕ n) (p.of_ℕ 100)

  abbrev property_of : String → String → String → ℕ → String → ℕ → ℕ → Property
  property_of name airbnb_id owner_id pct city bedrooms max_guests = record {
    name = name;
    airbnb_id = airbnb_id;
    owner_id = owner_id;
    management_contract_pct = hundredths pct;
    city = city;
    state = "CA";
    bedrooms = bedrooms;
    max_guests = max_guests;
  }

  unfoldable pub properties : Dict Property
  properties =
      (
        "prop-001",
        property_of "Sweet Clementine by the Sea" "838634728141757030" "owner-001" 20 "Oceanside" 3
            8,
      )
      ∷ (
        "prop-002",
        property_of "The Pelican Cottage" "112233445566778899" "owner-002" 20 "Oceanside" 2 4,
      )
      ∷ (
        "prop-003",
        property_of "Harbor View Suite" "223344556677889900" "owner-002" 18 "San Diego" 1 2,
      )
      ∷ (
        "prop-004",
        property_of "Sunset Ridge Cabin" "334455667788990011" "owner-003" 20 "Julian" 2 6,
      )
      ∷ (
        "prop-005",
        property_of "Pacific Dunes Bungalow" "445566778899001122" "owner-003" 20 "Carlsbad" 2 5,
      )
      ∷ []

  unfoldable pub management_fees_charged : Dict Float
  management_fees_charged =
      ("prop-001", hundredths 22)
      ∷ ("prop-002", hundredths 20)
      ∷ ("prop-003", hundredths 18)
      ∷ ("prop-004", hundredths 20)
      ∷ ("prop-005", hundredths 20)
      ∷ []

  unfoldable pub get_property : String → Result Property
  get_property property_id = elim (get property_id properties) [
    | none ↦ err key_error
    | some prop ↦ ok prop
  ]

  -- `int(revenue * pct)`
  abbrev pub fee_of : ℕ → Float → ℕ
  fee_of revenue pct = p.trunc (p.mul (p.of_ℕ revenue) pct)

  pub record Summary : Type 0 where
    pub property_id : String
    pub month : String
    pub revenue_cents : ℕ
    pub contracted_fee_pct : Float
    pub charged_fee_pct : Float
    pub contracted_fee_cents : ℕ
    pub charged_fee_cents : ℕ
    pub fee_delta_cents : ℤ
    pub anomaly : Bool

  abbrev pub charged_pct_or : String → Float → Float
  charged_pct_or property_id contracted = elim (get property_id management_fees_charged) [
    | none ↦ contracted
    | some pct ↦ pct
  ]

  unfoldable pub get_ledger_summary : String → String → Result Summary
  get_ledger_summary property_id month = elim (get_property property_id) [
    | err x ↦ err x
    | ok prop ↦
        let revenue = revenue_of property_id in
        let contracted = prop.management_contract_pct in
        let charged = charged_pct_or property_id contracted in
        let delta = difference (fee_of revenue charged) (fee_of revenue contracted) in
        ok (record {
          property_id = property_id;
          month = month;
          revenue_cents = revenue;
          contracted_fee_pct = contracted;
          charged_fee_pct = charged;
          contracted_fee_cents = fee_of revenue contracted;
          charged_fee_cents = fee_of revenue charged;
          fee_delta_cents = delta;
          anomaly = not (is_zero delta);
        })
  ]

  -- the loop of `list_properties_for_owner`
  unfoldable pub owned_by : String → Dict Property → List String
  owned_by owner_id [] = []
  owned_by owner_id ((pid, prop) ∷ rest) =
      let others = owned_by owner_id rest in
      if str_eq prop.owner_id owner_id then pid ∷ others else others

  unfoldable pub list_properties_for_owner : String → List String
  list_properties_for_owner owner_id = owned_by owner_id properties
