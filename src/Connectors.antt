-- ===== src/Connectors.antt =====
-- Where the transactions of a tenant come from (connectors/base.py, connectors/manual_folder.py,
-- connectors/plaid_conn.py).
use nemoclaw_smb.Base.{
  ℕ, zero, suc, ◌+◌, ◌||◌, ◌⊎◌, inl, inr, String, true, false, Option, none, some, List, [], ◌∷◌,
  ◌++◌, concat, str_eq, if◌then◌else◌,
}
use nemoclaw_smb.Base.Dict.{Dict, get, put}
use nemoclaw_smb.Base.Act.{Result, attribute_error, err, ok, pure, runtime_error, ◌>>=◌}
use nemoclaw_smb.Json.{Value, str}
use nemoclaw_smb.Platform.{Platform, PlaidTransaction}
use nemoclaw_smb.Platform.Values.{truthy}
use nemoclaw_smb.Tenancy.{Tenant}
use nemoclaw_smb.Ingestion.{Adapter, Transaction, expense, income}
use nemoclaw_smb.Ingestion.Loader.{load_transactions, same_float}

pub data Connector : Type 0 where
  manual_folder plaid : Connector

-- `type(connector).__name__`
abbrev pub connector_name : Connector → String
connector_name manual_folder = "ManualFolderConnector"
connector_name plaid = "PlaidConnector"

-- A `ConnectorError` of a fetch, by its message.
pub data Fault : Type 0 where
  no_token not_installed no_credentials sync_failed : Fault

abbrev or_empty : Option String → String
or_empty none = ""
or_empty (some s) = s

abbrev text_or : Option String → String → String
text_or none other = other
text_or (some s) other = if str_eq s "" then other else s

module _ ⦃p : Platform⦄ where
  open p use {Float}

  -- The state between runs: an object, or `none` for another JSON value, which is kept as it is.
  abbrev pub State : Type 0
  State = Option (Dict (Value Float))

  abbrev pub Fetched : Type 0
  Fetched = List Transaction × State

  abbrev named : String → Result Connector
  named name =
      if str_eq name "manual_folder"
      then ok manual_folder
      else if str_eq name "plaid"
      then ok plaid
      else err runtime_error

  -- the name in the tenant's file; a `Tenant` has no field `connector`
  unfoldable pub get_connector : Tenant → Result Connector
  get_connector tenant = elim (get "connector" tenant.ingestion) [
    | none ↦ ok manual_folder
    | some (str s) ↦ named (p.lower (p.strip (if str_eq s "" then "manual_folder" else s)))
    | some v ↦ if truthy v then err attribute_error else ok manual_folder
  ]

  abbrev plaid_category : PlaidTransaction Float → String
  plaid_category raw = elim raw.personal_finance_category [
    | some primary ↦ text_or primary "Other"
    | none ↦ elim raw.category [ [] ↦ "Other" | c ∷ _ ↦ c ]
  ]

  -- `_map_transaction`: a positive amount is an expense, and none is left out
  pub map_transaction : PlaidTransaction Float → Option Transaction
  map_transaction raw =
      if same_float raw.amount (p.of_ℕ 0)
      then none
      else some (record {
        date = text_or raw.date (or_empty raw.authorized_date);
        vendor = text_or raw.merchant_name (text_or raw.name "Unknown");
        amount = p.abs raw.amount;
        direction = if p.lt (p.of_ℕ 0) raw.amount then expense else income;
        category = some (plaid_category raw);
        source = concat ("plaid:" ∷ raw.transaction_id ∷ []);
      })

  pub map_transactions : List (PlaidTransaction Float) → List Transaction
  map_transactions [] = []
  map_transactions (raw ∷ raws) =
      let rest = map_transactions raws in
      elim (map_transaction raw) [ none ↦ rest | some t ↦ t ∷ rest ]

  -- `_build_plaid_client`
  pub build_plaid_client : Option Fault
  build_plaid_client =
      if p.has_plaid
      then if str_eq (or_empty (p.getenv "PLAID_CLIENT_ID")) ""
          || str_eq (or_empty (p.getenv "PLAID_SECRET")) ""
        then some no_credentials
        else none
      else some not_installed

  -- The loop over the pages, of which so many may still be read.
  unfoldable pub sync_pages : ℕ → ℕ → String → String → Fault ⊎ (List Transaction × String)
  sync_pages zero tick token cursor = inr ([], cursor)
  sync_pages (suc pages) tick token cursor = elim (p.transactions_sync tick token cursor) [
    | none ↦ inl sync_failed
    | some (added, next, has_more) ↦
        let here = map_transactions added in
        let next_cursor = if str_eq next "" then cursor else next in
        elim has_more [
          | false ↦ inr (here, next_cursor)
          | true ↦ elim (sync_pages pages (tick + 1) token next_cursor) [
            | inl x ↦ inl x
            | inr (more, last) ↦ inr (here ++ more, last)
          ]
        ]
  ]

  -- the cursor of a state: a text, and where it is none that Plaid refuses, the empty one
  abbrev cursor_of : Option (Value Float) → Option String
  cursor_of none = some ""
  cursor_of (some (str s)) = some s
  cursor_of (some v) = if truthy v then none else some ""

  unfoldable pub max_pages : ℕ
  max_pages = 20

  abbrev plaid_from : ℕ → String → Dict (Value Float) → Option String → Fault ⊎ Fetched
  plaid_from tick token state none = inl sync_failed
  plaid_from tick token state (some cursor) = elim (sync_pages max_pages tick token cursor) [
    | inl x ↦ inl x
    | inr (added, last) ↦ inr (added, some (put "cursor" (str last) state))
  ]

  -- `PlaidConnector.fetch`, which takes a reading for each page
  unfoldable pub fetch_plaid : State → Adapter (Fault ⊎ Fetched)
  fetch_plaid state tick =
      let token = or_empty (p.getenv "PLAID_ACCESS_TOKEN") in
      let later = tick + max_pages in
      if str_eq token "" then (ok (inl no_token), later) else elim build_plaid_client [
        | some x ↦ (ok (inl x), later)
        | none ↦ elim state [
          | none ↦ (err attribute_error, later)
          | some d ↦ (ok (plaid_from tick token d (cursor_of (get "cursor" d))), later)
        ]
      ]

  -- `ManualFolderConnector.fetch`
  unfoldable pub fetch_manual : Tenant → State → Adapter (Fault ⊎ Fetched)
  fetch_manual tenant state = load_transactions tenant >>= λ txns. pure (inr (txns, state))

  unfoldable pub fetch : Connector → Tenant → State → Adapter (Fault ⊎ Fetched)
  fetch manual_folder tenant state = fetch_manual tenant state
  fetch plaid tenant state = fetch_plaid state
