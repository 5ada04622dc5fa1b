-- ===== src/Stripe/Modes.antt =====
-- Which way a payment goes (payments/stripe_client.py).
use Prim.Native.Char.{code}
use nemoclaw_smb.Base.{
  ℕ, ◌+◌, ◌≡◌, ◌⊎◌, inl, inr, refl, String, Bool, true, false, Option, none, some, arith, ◌==◌,
  starts_with, after_prefix, if◌then◌else◌, Bool-cases, Option-cases,
}
use nemoclaw_smb.Base.Dict.{Dict, get}
use nemoclaw_smb.Json.{Value, bool, real, str}
use nemoclaw_smb.Platform.{Platform}
use nemoclaw_smb.Stripe.{
  amount_cents, env, get_stripe, is_live_key, is_test_key, key_or, mcp_args, mock_id, pay,
  pay_direct, payment, stripe_mcp_enabled,
}

-- Two texts that differ at a place which both have.
diverge : String → String → Bool
diverge String.[] q = false
diverge (String.◌∷◌ c q) String.[] = false
diverge (String.◌∷◌ c q) (String.◌∷◌ d r) =
    let rest = diverge q r in if code c == code d then rest else true

after_prefix-diverge :
    (q r s : String) {t : String}
    → diverge q r ≡ true
    → after_prefix q s ≡ some t
    → after_prefix r s ≡ none
unfolding diverge after_prefix
after_prefix-diverge String.[] r s h k = ground arith
after_prefix-diverge (String.◌∷◌ c q) String.[] s h k = ground arith
after_prefix-diverge (String.◌∷◌ c q) (String.◌∷◌ d r) String.[] h k = ground arith
after_prefix-diverge (String.◌∷◌ c q) (String.◌∷◌ d r) (String.◌∷◌ e s) {t} h k =
    ground (arith, after_prefix-diverge q r s {t = t})

live_test_diverge : diverge "sk_live_" "sk_test_" ≡ true
unfolding diverge
live_test_diverge = refl

-- A live key is no test key.
pub live_not_test :
    (key : String) → starts_with "sk_live_" key ≡ true → starts_with "sk_test_" key ≡ false
live_not_test key h = elim (Option-cases (after_prefix "sk_live_" key)) [
  | inl e ↦ ground arith
  | inr (t, e) ↦
      rw (after_prefix-diverge "sk_live_" "sk_test_" key {t = t} live_test_diverge e, starts_with)
        refl
]

module _ ⦃p : Platform⦄ where
  -- What a payment says of itself, whichever way it went.
  pub record IsTestPayment (vendor : String) (amount : p.Float) (d : Dict (Value p.Float))
      : Type 0 where
    pub has_amount : get "amount" d ≡ some (real amount)
    pub has_vendor : get "vendor" d ≡ some (str vendor)
    pub mode : get "mode" d ≡ some (str "test")
    pub livemode : get "livemode" d ≡ some (bool false)
    pub backend :
        (get "backend" d ≡ some (str "mock")) ⊎ (is_test_key (env "STRIPE_SECRET_KEY") ≡ true)

  payment-IsTestPayment :
      (id status : String) (amount : p.Float) (vendor backend : String)
      → (backend ≡ "mock") ⊎ (is_test_key (env "STRIPE_SECRET_KEY") ≡ true)
      → IsTestPayment vendor amount (payment id status amount vendor backend)
  unfolding get
  payment-IsTestPayment id status amount vendor backend way = record {
    has_amount = refl;
    has_vendor = refl;
    mode = refl;
    livemode = refl;
    backend = elim way [ inl e ↦ inl (rw e refl) | inr e ↦ inr e ];
  }

  pay_direct-IsTestPayment :
      (tick : ℕ) (vendor : String) (amount : p.Float) (ikey : String)
      → IsTestPayment vendor amount (pay_direct tick vendor amount ikey)
  unfolding pay_direct get_stripe
  pay_direct-IsTestPayment tick vendor amount ikey = elim (Bool-cases get_stripe) [
    | inr off ↦ rw off (payment-IsTestPayment _ _ amount vendor "mock" (inl refl))
    | inl on ↦ elim (Option-cases (p.sdk_payment tick (amount_cents amount) ikey)) [
      | inl e ↦ rw (on, e) (payment-IsTestPayment _ _ amount vendor "mock" (inl refl))
      | inr (r, e) ↦ rw (on, e) (payment-IsTestPayment _ _ amount vendor "sdk" (inr (ground arith)))
    ]
  ]

  -- Every payment is returned with the amount and the vendor of the call, in test mode and not live,
  -- and it is a mock unless the configured key is a test key.
  pub pay-IsTestPayment :
      (tick : ℕ) (vendor : String) (amount : p.Float) (key : Option String)
      → IsTestPayment vendor amount (pay tick vendor amount key)
  unfolding pay stripe_mcp_enabled is_test_key
  pay-IsTestPayment tick vendor amount key =
      let direct = pay_direct-IsTestPayment (tick + 1) vendor amount (key_or key vendor amount) in
      elim (Bool-cases stripe_mcp_enabled) [
        | inr off ↦ rw off direct
        | inl on ↦
            elim (Option-cases (
              p.mcp_payment tick (amount_cents amount)
                (mcp_args (amount_cents amount) vendor (key_or key vendor amount)))) [
                  | inl e ↦ rw (on, e) direct
                  | inr (r, e) ↦
                      rw (on, e)
                        (payment-IsTestPayment _ _ amount vendor "mcp" (inr (ground arith)))
                ]
      ]

  -- With a live key configured no service is asked: the payment is the mock one, whatever the
  -- services would answer.
  pub pay_live_key :
      (tick : ℕ) (vendor : String) (amount : p.Float) (key : Option String) (live : String)
      → p.getenv "STRIPE_SECRET_KEY" ≡ some live
      → is_live_key live ≡ true
      → pay tick vendor amount key
        ≡ payment
            (mock_id vendor amount (key_or key vendor amount))
            "succeeded"
            amount
            vendor
            "mock"
  unfolding pay pay_direct stripe_mcp_enabled get_stripe is_live_key
  pay_live_key tick vendor amount key live set h = ground (arith, live_not_test live h)
