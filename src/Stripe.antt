-- ===== src/Stripe.antt =====
-- Payments over Stripe (payments/stripe_client.py and payments/stripe_mcp.py), in test mode only: MCP,
-- then the SDK, then a mock. A reading `tick` of the outside world is one call of a service.
pub mod Fees
pub mod Modes
pub mod Subscriptions
use Prim.Native.String.{slice}
use nemoclaw_smb.Base.{
  ℕ, ◌+◌, String, Bool, true, false, not, Option, none, some, List, [], ◌∷◌, ◌||◌, concat, member,
  starts_with, str_eq, if◌then◌else◌,
}
use nemoclaw_smb.Base.Dict.{Dict}
use nemoclaw_smb.Json.{Value, Items, bool, int, real, str, arr, nil, cons, object}
use nemoclaw_smb.Platform.{Platform, Reply}

module _ ⦃p : Platform⦄ where
  open p use {Float}

  abbrev pub text_or : Option String → String → String
  text_or none other = other
  text_or (some s) other = s

  -- `os.environ.get(name, "")`
  abbrev pub env : String → String
  env name = text_or (p.getenv name) ""

  unfoldable pub is_live_key : String → Bool
  is_live_key key = starts_with "sk_live_" key

  unfoldable pub is_test_key : String → Bool
  is_test_key key = starts_with "sk_test_" key

  unfoldable pub stripe_mcp_enabled : Bool
  stripe_mcp_enabled =
      if member (p.lower (env "STRIPE_FORCE_SDK")) ("1" ∷ "true" ∷ "yes" ∷ [])
      then false
      else if not (starts_with "sk_test_" (env "STRIPE_SECRET_KEY"))
      then false
      else p.has_npx

  -- `_stable_id(prefix, *parts)`
  pub stable_id : String → Items Float → String
  stable_id prefix parts = concat (prefix ∷ "_" ∷ slice (p.sha256 (p.dumps (arr parts))) 0 16 ∷ [])

  -- `_get_stripe() is not None`
  unfoldable pub get_stripe : Bool
  get_stripe =
      if is_live_key (env "STRIPE_SECRET_KEY")
      then false
      else if not (is_test_key (env "STRIPE_SECRET_KEY"))
      then false
      else p.has_stripe_sdk

  -- the dict that `pay` returns
  abbrev pub payment : String → String → Float → String → String → Dict (Value Float)
  payment id status amount vendor backend =
      ("id", str id)
      ∷ ("status", str status)
      ∷ ("amount", real amount)
      ∷ ("vendor", str vendor)
      ∷ ("mode", str "test")
      ∷ ("livemode", bool false)
      ∷ ("backend", str backend)
      ∷ []

  -- `idempotency_key or f"{vendor}:{amount}"`
  abbrev pub key_or : Option String → String → Float → String
  key_or key vendor amount =
      let made = concat (vendor ∷ ":" ∷ p.show_float amount ∷ []) in
      elim key [ none ↦ made | some k ↦ if str_eq k "" then made else k ]

  abbrev pub amount_cents : Float → ℕ
  amount_cents amount = p.trunc (p.round_to 0 (p.mul amount (p.of_ℕ 100)))

  abbrev pub mock_id : String → Float → String → String
  mock_id vendor amount ikey =
      stable_id "pi_test" (cons (str vendor) (cons (real amount) (cons (str ikey) nil)))

  -- `mcp_pay`: the arguments of the tool `create_payment_intent`
  pub mcp_args : ℕ → String → String → Dict (Value Float)
  mcp_args cents vendor ikey =
      ("amount", int cents)
      ∷ ("currency", str "usd")
      ∷ ("payment_method", str "pm_card_visa")
      ∷ ("confirm", bool true)
      ∷ (
        "automatic_payment_methods",
        object (("enabled", bool true) ∷ ("allow_redirects", str "never") ∷ []),
      )
      ∷ ("metadata", object (("vendor", str vendor) ∷ ("idempotency_key", str ikey) ∷ []))
      ∷ []

  -- The SDK, and the mock where it is missing or fails.
  unfoldable pub pay_direct : ℕ → String → Float → String → Dict (Value Float)
  pay_direct tick vendor amount ikey =
      let mock = payment (mock_id vendor amount ikey) "succeeded" amount vendor "mock" in
      if get_stripe
      then elim (p.sdk_payment tick (amount_cents amount) ikey) [
        | none ↦ mock
        | some r ↦ payment (text_or r.reply_id "") (text_or r.reply_status "") amount vendor "sdk"
      ]
      else mock

  unfoldable pub pay : ℕ → String → Float → Option String → Dict (Value Float)
  pay tick vendor amount key =
      let ikey = key_or key vendor amount in
      let direct = pay_direct (tick + 1) vendor amount ikey in
      if stripe_mcp_enabled
      then elim (p.mcp_payment tick (amount_cents amount)
          (mcp_args (amount_cents amount) vendor ikey)) [
            | none ↦ direct
            | some r ↦
                payment (text_or r.reply_id (mock_id vendor amount ikey))
                  (text_or r.reply_status "succeeded") amount vendor "mcp"
          ]
      else direct
