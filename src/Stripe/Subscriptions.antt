-- ===== src/Stripe/Subscriptions.antt =====
-- Subscriptions over Stripe (payments/stripe_client.py, payments/stripe_mcp.py).
use nemoclaw_smb.Base.{ℕ, ◌+◌, String, none, some, [], ◌∷◌, concat, if◌then◌else◌}
use nemoclaw_smb.Base.Dict.{Dict}
use nemoclaw_smb.Base.Act.{Result, ok, err, attribute_error, service_error}
use nemoclaw_smb.Json.{Value, Fields, null, int, real, str, arr, obj, nil, cons, object}
use nemoclaw_smb.Platform.{Platform}
use nemoclaw_smb.Platform.Values.{field_of, truthy, value_or}
use nemoclaw_smb.Stripe.{amount_cents, get_stripe, stable_id, stripe_mcp_enabled, text_or}

module _ ⦃p : Platform⦄ where
  open p use {Float}

  -- `answer.get(name, {}).get("id")`: of anything but an object, an `AttributeError`
  abbrev nested_id : String → Fields Float → Result (Value Float)
  nested_id name answer = elim (field_of name answer) [
    | none ↦ ok null
    | some (obj fields) ↦ ok (value_or null (field_of "id" fields))
    | some _ ↦ err attribute_error
  ]

  -- `answer.get("id") or answer.get(name, {}).get("id")`
  abbrev id_of : String → Value Float → Result (Value Float)
  id_of name (obj answer) =
      let id = value_or null (field_of "id" answer) in
      if truthy id then ok id else nested_id name answer
  id_of name _ = err attribute_error

  -- a call of a tool that gives a resource of this name, up to its id
  abbrev resource : ℕ → String → String → Dict (Value Float) → Result (Value Float)
  resource tick tool name args = elim (p.call_tool tick tool args) [
    | none ↦ err service_error
    | some answer ↦ id_of name answer
  ]

  abbrev price_args : Value Float → ℕ → Dict (Value Float)
  price_args product cents =
      ("product", product)
      ∷ ("unit_amount", int cents)
      ∷ ("currency", str "usd")
      ∷ ("recurring", object (("interval", str "month") ∷ []))
      ∷ []

  abbrev customer_args : String → Dict (Value Float)
  customer_args vendor =
      ("name", str (concat ("nemoclaw-smb:" ∷ vendor ∷ [])))
      ∷ ("metadata", object (("vendor", str vendor) ∷ []))
      ∷ []

  abbrev subscription_args : Value Float → Value Float → Dict (Value Float)
  subscription_args customer price =
      ("customer", customer) ∷ ("items", arr (cons (object (("price", price) ∷ [])) nil)) ∷ []

  pub mcp_create_subscription : ℕ → String → ℕ → Result (Value Float)
  mcp_create_subscription tick vendor cents =
      elim (resource tick "create_product" "product"
        (("name", str (concat ("NemoClaw SaaS — " ∷ vendor ∷ []))) ∷ [])) [
          | err x ↦ err x
          | ok product ↦
              elim (resource (tick + 1) "create_price" "price" (price_args product cents)) [
                | err x ↦ err x
                | ok price ↦
                    elim (resource (tick + 2) "create_customer" "customer" (customer_args vendor)) [
                      | err x ↦ err x
                      | ok customer ↦
                          elim (p.call_tool (tick + 3) "create_subscription"
                            (subscription_args customer price)) [
                              | none ↦ err service_error
                              | some sub ↦ ok sub
                            ]
                    ]
              ]
        ]

  -- the dict that `create_subscription` returns
  abbrev pub subscription : Value Float → String → Float → Value Float → String → Dict (Value Float)
  subscription id vendor amount status backend =
      ("id", id)
      ∷ ("vendor", str vendor)
      ∷ ("amount", real amount)
      ∷ ("status", status)
      ∷ ("mode", str "test")
      ∷ ("backend", str backend)
      ∷ []

  abbrev subscription_id : String → Float → String
  subscription_id vendor amount =
      stable_id "sub_test" (cons (str vendor) (cons (real amount) (cons (str "create") nil)))

  -- The SDK, and the mock where it is missing or fails.
  pub create_direct : ℕ → String → Float → Dict (Value Float)
  create_direct tick vendor amount =
      let mock =
        subscription (str (subscription_id vendor amount)) vendor amount (str "active") "mock" in
      if get_stripe
      then elim (p.sdk_subscription tick vendor (amount_cents amount)) [
        | none ↦ mock
        | some r ↦
            subscription (str (text_or r.reply_id "")) vendor amount
              (str (text_or r.reply_status "")) "sdk"
      ]
      else mock

  -- A `StripeMcpError` falls back to the SDK; another exception goes on.
  pub create_subscription : ℕ → String → Float → Result (Dict (Value Float))
  create_subscription tick vendor amount =
      let direct = create_direct (tick + 4) vendor amount in
      if stripe_mcp_enabled
      then elim (mcp_create_subscription tick vendor (amount_cents amount)) [
        | err service_error ↦ ok direct
        | err x ↦ err x
        | ok (obj sub) ↦ ok (
            subscription (value_or (str (subscription_id vendor amount)) (field_of "id" sub)) vendor
              amount (value_or (str "active") (field_of "status" sub)) "mcp")
        | ok _ ↦ err attribute_error
      ]
      else ok direct
