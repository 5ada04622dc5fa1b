-- ===== src/Ledger.antt =====
-- The QuickBooks-style ledger (payments/intuit_reconciler.py).
use Prim.Native.String.{slice}
use nemoclaw_smb.Base.{
  String, Option, none, some, List, [], ◌∷◌, ◌++◌, concat, has_part, str_eq, if◌then◌else◌,
}
use nemoclaw_smb.Base.Dict.{Dict, get}
use nemoclaw_smb.Base.Act.{Act, ok}
use nemoclaw_smb.Json.{Value, null, str, object}
use nemoclaw_smb.Platform.{Platform, Moment}

abbrev pub default_account : String
default_account = "Software/SaaS Expense"

abbrev category_account_map : List (String × String)
category_account_map =
    ("saas", "Software/SaaS Expense")
    ∷ ("software", "Software/SaaS Expense")
    ∷ ("cloud", "Cloud Infrastructure")
    ∷ ("payroll", "Payroll Expense")
    ∷ ("marketing", "Marketing & Advertising")
    ∷ ("travel", "Travel & Entertainment")
    ∷ ("utilities", "Utilities")
    ∷ []

-- the loop of `_resolve_account`
abbrev account_for : String → List (String × String) → String
account_for key [] = default_account
account_for key ((fragment, account) ∷ rest) =
    if has_part fragment key then account else account_for key rest

module _ ⦃p : Platform⦄ where
  open p use {Float}

  abbrev value_or : Option (Value Float) → Value Float → Value Float
  value_or none other = other
  value_or (some v) other = v

  pub entry_id : Dict (Value Float) → String → String
  entry_id payment txn_date = concat (
      "qb_sandbox_"
      ∷ slice
          (p.sha256 (
            p.dumps
              (object (("id", value_or (get "id" payment) null) ∷ ("date", str txn_date) ∷ []))))
          0 16
      ∷ [])

  pub resolve_account : Option String → String
  resolve_account none = default_account
  resolve_account (some category) =
      if str_eq category ""
      then default_account
      else account_for (p.strip (p.lower category)) category_account_map

  -- the given date, or the day of the clock where it is absent or empty
  abbrev date_or : Moment → Option String → String
  date_or now none = slice now.iso 0 10
  date_or now (some date) = if str_eq date "" then slice now.iso 0 10 else date

  abbrev pub ledger_entry :
      Moment → Dict (Value Float) → Option String → Option String → Dict (Value Float)
  ledger_entry now payment category date =
      let txn_date = date_or now date in
      ("entry_id", str (entry_id payment txn_date))
      ∷ ("account", str (resolve_account category))
      ∷ ("vendor", value_or (get "vendor" payment) (str "unknown"))
      ∷ ("amount", value_or (get "amount" payment) null)
      ∷ ("txn_date", str txn_date)
      ∷ ("source", str "stripe")
      ∷ ("status", str "posted")
      ∷ ("mode", str "sandbox")
      ∷ []

  unfoldable pub reconcile :
      Moment
      → Dict (Value Float)
      → Option String
      → Option String
      → Act (List (Dict (Value Float))) (Dict (Value Float))
  reconcile now payment category date ledger =
      let entry = ledger_entry now payment category date in (ok entry, ledger ++ (entry ∷ []))
