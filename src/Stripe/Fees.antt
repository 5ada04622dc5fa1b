-- ===== src/Stripe/Fees.antt =====
-- Fees and cancellations over Stripe (payments/stripe_client.py, payments/stripe_mcp.py).
use nemoclaw_smb.Base.{ℕ, ◌+◌, ◌≡◌, String, true, none, some, [], ◌∷◌, arith, if◌then◌else◌}
use nemoclaw_smb.Base.Dict.{Dict}
use nemoclaw_smb.Json.{Value, bool, cons, int, nil, object, real, str}
use nemoclaw_smb.Platform.{Platform}
use nemoclaw_smb.Stripe.{
  amount_cents, get_stripe, is_live_key, stable_id, stripe_mcp_enabled, text_or,
}
use nemoclaw_smb.Stripe.Modes.{live_not_test}

module _ ⦃p : Platform⦄ where
  open p use {Float}

  pub cancel_subscription : String → Dict (Value Float)
  cancel_subscription vendor =
      ("id", str (stable_id "sub_test" (cons (str vendor) (cons (str "cancel") nil))))
      ∷ ("vendor", str vendor)
      ∷ ("status", str "canceled")
      ∷ ("mode", str "test")
      ∷ []

  -- the dict that `collect_fee` returns
  abbrev pub fee : String → Float → String → String → String → Dict (Value Float)
  fee id amount status basis backend =
      ("id", str id)
      ∷ ("amount", real amount)
      ∷ ("status", str status)
      ∷ ("mode", str "test")
      ∷ ("basis", str basis)
      ∷ ("backend", str backend)
      ∷ []

  abbrev pub fee_id : Float → String → String
  fee_id amount basis =
      stable_id "pi_test" (cons (str "nemoclaw_fee") (cons (real amount) (cons (str basis) nil)))

  -- `mcp_collect_fee`: the arguments of the tool `create_payment_intent`
  pub mcp_fee_args : ℕ → String → Dict (Value Float)
  mcp_fee_args cents basis =
      ("amount", int cents)
      ∷ ("currency", str "usd")
      ∷ ("payment_method", str "pm_card_visa")
      ∷ ("confirm", bool true)
      ∷ (
        "automatic_payment_methods",
        object (("enabled", bool true) ∷ ("allow_redirects", str "never") ∷ []),
      )
      ∷ ("metadata", object (("fee_type", str "nemoclaw_platform_fee") ∷ ("basis", str basis) ∷ []))
      ∷ []

  -- The SDK, and the mock where it is missing or fails.
  pub collect_direct : ℕ → Float → String → Dict (Value Float)
  collect_direct tick amount basis =
      let mock = fee (fee_id amount basis) amount "succeeded" basis "mock" in
      if get_stripe
      then elim (p.sdk_fee tick (amount_cents amount) basis) [
        | none ↦ mock
        | some r ↦ fee (text_or r.reply_id "") amount (text_or r.reply_status "") basis "sdk"
      ]
      else mock

  pub collect_fee : ℕ → Float → String → Dict (Value Float)
  collect_fee tick amount basis =
      let direct = collect_direct (tick + 1) amount basis in
      if stripe_mcp_enabled
      then elim (p.mcp_payment tick (amount_cents amount)
          (mcp_fee_args (amount_cents amount) basis)) [
            | none ↦ direct
            | some r ↦
                fee (text_or r.reply_id (fee_id amount basis)) amount
                  (text_or r.reply_status "succeeded") basis "mcp"
          ]
      else direct

  -- With a live key configured no service is asked for a fee: the fee is the mock one, whatever the
  -- services would answer.
  pub collect_fee_live_key :
      (tick : ℕ) (amount : Float) (basis live : String)
      → p.getenv "STRIPE_SECRET_KEY" ≡ some live
      → is_live_key live ≡ true
      → collect_fee tick amount basis ≡ fee (fee_id amount basis) amount "succeeded" basis "mock"
  unfolding collect_fee collect_direct stripe_mcp_enabled get_stripe is_live_key
  collect_fee_live_key tick amount basis live set h = ground (arith, live_not_test live h)
