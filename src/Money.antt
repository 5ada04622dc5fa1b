-- ===== src/Money.antt =====
-- What moves money for the properties: cleaner cards (payments/issuing.py), payouts of the crew
-- (payments/payouts.py) and the accounts of the owners (payments/connect.py). Stripe is mocked in the
-- code; the audit entries are real.

pub mod Batch
pub mod Accounts
use Prim.Native.String.{slice}
use nemoclaw_smb.Base.{ℕ, ◌+◌, String, Option, none, some, List, [], ◌∷◌, ◌++◌, concat}
use nemoclaw_smb.Base.Dict.{Dict, get, put}
use nemoclaw_smb.Base.Act.{Act, Result, ok, err, pure, modify, ◌>>=◌, ◌>>◌}
use nemoclaw_smb.Json.{Value, int, str, texts}
use nemoclaw_smb.Platform.{Platform}
use nemoclaw_smb.Audit.{append_action}
use nemoclaw_smb.Chain.{Entry}
use nemoclaw_smb.Envelope.{sign_stripe_envelope}
use nemoclaw_smb.MockLedger.{Member}
use nemoclaw_smb.World.{ConnectedAccount, World, on_audit}
use nemoclaw_smb.World.Notes.{noted, with_metadata}

abbrev cleaner_mcc_list : List String
cleaner_mcc_list = "7349" ∷ "5251" ∷ []

abbrev pub default_amount_cents : ℕ
default_amount_cents = 7500

pub record CleanerCardResult : Type 0 where
  pub card_token : String
  pub card_id : String
  pub job_id : String
  pub property_id : String
  pub cleaner_id : String
  pub amount_cap_cents : ℕ
  pub mcc_list : List String
  pub expiry_utc : String
  pub backend : String

pub record RevokeResult : Type 0 where
  pub card_id : String
  pub reason : String
  pub status : String
  pub backend : String

pub record PayoutRecord : Type 0 where
  pub crew_id : String
  pub crew_name : String
  pub amount_cents : ℕ
  pub month : String
  pub transfer_id : String
  pub status : String
  pub backend : String

pub record PayoutBatch : Type 0 where
  pub month : String
  pub records : List PayoutRecord
  pub total_cents : ℕ

module _ ⦃p : Platform⦄ where
  open p use {Float}

  -- a prefix and 16 digits of the hash of the JSON list of some texts
  unfoldable pub stable_id : String → List String → String
  stable_id prefix parts = concat (prefix ∷ slice (p.sha256 (p.dumps (texts parts))) 0 16 ∷ [])

  abbrev pub dollars : ℕ → Float
  dollars cents = p.div (p.of_ℕ cents) (p.of_ℕ 100)

  abbrev pub audit :
      String → String → Float → String → String → Dict (Value Float) → Act World Entry
  audit action vendor amount decision actor metadata =
      on_audit (λ now. append_action now action vendor amount decision actor metadata)

  -- `_same_day_eod_utc().isoformat()`, of the UTC time of the clock
  abbrev pub same_day_eod_utc : String → String
  same_day_eod_utc iso = concat (slice iso 0 10 ∷ "T23:59:59+00:00" ∷ [])

  abbrev pub card_payload : String → String → String → ℕ → String → Dict (Value Float)
  card_payload job_id property_id cleaner_id amount_cents expiry =
      ("job_id", str job_id)
      ∷ ("property_id", str property_id)
      ∷ ("cleaner_id", str cleaner_id)
      ∷ ("amount_cents", int amount_cents)
      ∷ ("mcc_list", texts cleaner_mcc_list)
      ∷ ("expiry", str expiry)
      ∷ []

  pub card_metadata : String → String → String → String → ℕ → String → Dict (Value Float)
  card_metadata card_id job_id property_id cleaner_id amount_cents expiry =
      ("card_id", str card_id)
      ∷ ("card_token", str (concat ("tok_" ∷ card_id ∷ [])))
      ∷ ("job_id", str job_id)
      ∷ ("property_id", str property_id)
      ∷ ("cleaner_id", str cleaner_id)
      ∷ ("amount_cap_cents", int amount_cents)
      ∷ ("mcc_list", texts cleaner_mcc_list)
      ∷ ("expiry", str expiry)
      ∷ ("backend", str "mock")
      ∷ []

  abbrev pub issued_card : String → String → String → ℕ → String → CleanerCardResult
  issued_card job_id property_id cleaner_id amount_cents expiry =
      let card_id = stable_id "ic_" (job_id ∷ cleaner_id ∷ []) in
      record {
        card_token = concat ("tok_" ∷ card_id ∷ []);
        card_id = card_id;
        job_id = job_id;
        property_id = property_id;
        cleaner_id = cleaner_id;
        amount_cap_cents = amount_cents;
        mcc_list = cleaner_mcc_list;
        expiry_utc = expiry;
        backend = "mock";
      }

  unfoldable pub issue_cleaner_card : String → String → String → ℕ → Act World CleanerCardResult
  issue_cleaner_card job_id property_id cleaner_id amount_cents w =
      let expiry = same_day_eod_utc (p.clock w.tick).iso in
      let card_id = stable_id "ic_" (job_id ∷ cleaner_id ∷ []) in
      (sign_stripe_envelope "issuing:card:create"
            (card_payload job_id property_id cleaner_id amount_cents expiry) "cleaner-subagent"
            ("card:issue:cleaning" ∷ [])
          >> audit "payment" "stripe-issuing" (dollars amount_cents) "card_issued"
              "cleaner-subagent"
              (card_metadata card_id job_id property_id cleaner_id amount_cents expiry)
          >> modify (
              noted "Stripe" "card issue (Issuing for Agents)" "firm" "ok"
                (with_metadata (("amount_cents", int amount_cents) ∷ [])))
          >> pure (issued_card job_id property_id cleaner_id amount_cents expiry))
        (record w { tick = w.tick + 1 })

  pub revoke_card : String → String → Act World RevokeResult
  revoke_card card_id reason =
      audit "payment" "stripe-issuing" (p.of_ℕ 0) "card_revoked" "cleaner-subagent"
        (("card_id", str card_id) ∷ ("reason", str reason) ∷ ("backend", str "mock") ∷ [])
      >> pure (record { card_id = card_id; reason = reason; status = "canceled"; backend = "mock" })

  abbrev pub payout_payload : Member → String → Dict (Value Float)
  payout_payload member month =
      ("crew_id", str member.id)
      ∷ ("crew_name", str member.name)
      ∷ ("amount_cents", int member.rate_cents)
      ∷ ("month", str month)
      ∷ []

  abbrev pub transfer_id : Member → String → String
  transfer_id member month = stable_id "tr_" (member.id ∷ month ∷ [])

  pub payout_metadata : Member → String → Dict (Value Float)
  payout_metadata member month =
      ("crew_id", str member.id)
      ∷ ("crew_name", str member.name)
      ∷ ("month", str month)
      ∷ ("transfer_id", str (transfer_id member month))
      ∷ ("backend", str "mock")
      ∷ []

  abbrev pub paid_record : Member → String → PayoutRecord
  paid_record member month = record {
    crew_id = member.id;
    crew_name = member.name;
    amount_cents = member.rate_cents;
    month = month;
    transfer_id = transfer_id member month;
    status = "paid";
    backend = "mock";
  }

  -- `_pay_one`
  unfoldable pub pay_one : String → Member → Act World PayoutRecord
  pay_one month member =
      sign_stripe_envelope "payout:transfer" (payout_payload member month) "property-mgmt-agent"
        ("payout:crew" ∷ [])
      >> audit "payment" "stripe-payouts" (dollars member.rate_cents) "payout_sent"
          "property-mgmt-agent" (payout_metadata member month)
      >> modify (
          noted "Stripe" "crew payout (Connect + Global Payouts)" "firm" "ok"
            (with_metadata (("amount_cents", int member.rate_cents) ∷ [])))
      >> pure (paid_record member month)

  -- the loop of `run_payouts` on the batch so far
  unfoldable pub pay_all : String → List Member → PayoutBatch → Act World PayoutBatch
  pay_all month [] batch = pure batch
  pay_all month (member ∷ rest) batch = pay_one month member >>= λ paid.
      pay_all month rest (record batch {
        records = batch.records ++ (paid ∷ []);
        total_cents = batch.total_cents + paid.amount_cents;
      })

  pub run_payouts : List Member → String → Act World PayoutBatch
  run_payouts crew month =
      pay_all month crew (record { month = month; records = []; total_cents = 0 })

  abbrev pub account_of : String → ConnectedAccount
  account_of owner_id = record {
    owner_id = owner_id;
    stripe_account_id = stable_id "acct_" (owner_id ∷ []);
    status = "active";
    backend = "mock";
  }

  abbrev pub account_metadata : String → Dict (Value Float)
  account_metadata owner_id =
      ("owner_id", str owner_id)
      ∷ ("stripe_account_id", str (account_of owner_id).stripe_account_id)
      ∷ ("backend", str "mock")
      ∷ []

  -- `_provision`: the cache is written before the audit log.
  unfoldable pub provision : String → Act World ConnectedAccount
  provision owner_id =
      let account = account_of owner_id in
      modify (λ w. record w { accounts = put owner_id account w.accounts })
      >> audit "access_change" "stripe-connect" (p.of_ℕ 0) "account_provisioned"
          "property-mgmt-agent" (account_metadata owner_id)
      >> pure account

  unfoldable pub ensure_one : String → Act World ConnectedAccount
  ensure_one owner_id w = elim (get owner_id w.accounts) [
    | some account ↦ (ok account, w)
    | none ↦ provision owner_id w
  ]

  -- the loop of `ensure_owner_accounts` on the accounts so far
  unfoldable pub ensure_all :
      List String → Dict ConnectedAccount → Act World (Dict ConnectedAccount)
  ensure_all [] found = pure found
  ensure_all (owner_id ∷ rest) found =
      ensure_one owner_id >>= λ account. ensure_all rest (put owner_id account found)

  unfoldable pub ensure_owner_accounts : List String → Act World (Dict ConnectedAccount)
  ensure_owner_accounts owners = ensure_all owners []

  pub get_connected_account : String → World → Option ConnectedAccount
  get_connected_account owner_id w = get owner_id w.accounts
