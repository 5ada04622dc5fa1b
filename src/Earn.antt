-- ===== src/Earn.antt =====
-- The endpoints that earn (payments/mpp_server.py). The skill behind an endpoint is an argument: any
-- computation on the world that answers or raises.
pub mod Served
use nemoclaw_smb.Base.{
  ℕ, ◌+◌, String, Bool, true, false, Option, none, some, List, [], ◌∷◌, concat, starts_with, str_eq,
  if◌then◌else◌,
}
use nemoclaw_smb.Base.Dict.{Dict}
use nemoclaw_smb.Base.Act.{Act, Result, ok, err, pure, ◌>>=◌}
use nemoclaw_smb.Json.{Value, int}
use nemoclaw_smb.Platform.{Platform}
use nemoclaw_smb.Audit.{append_earn}
use nemoclaw_smb.Chain.{Entry}
use nemoclaw_smb.Governance.{AuthorizeResult, authorize, issue_nhi}
use nemoclaw_smb.Interactions.{append_interaction}
use nemoclaw_smb.World.{World, on_audit}

-- the prices of the endpoints, in cents
abbrev pub price_endpoint_cents : ℕ
price_endpoint_cents = 25

abbrev pub aeo_audit_endpoint_cents : ℕ
aeo_audit_endpoint_cents = 100

abbrev pub guest_comms_endpoint_cents : ℕ
guest_comms_endpoint_cents = 150

abbrev platform_scopes : List String
platform_scopes = "str:price" ∷ "str:aeo-audit" ∷ "str:guest-comms" ∷ []

module _ ⦃p : Platform⦄ where
  open p use {Float}

  -- What an endpoint answers: payment required with its price, forbidden with the reason, or the
  -- result of the skill with the entry that was earned.
  pub data Answer : Type 0 where
    payment_required : ℕ → Answer
    forbidden : String → Answer
    served : ℕ → Dict (Value Float) → Entry → Answer

  -- `validate_mpp_token`: with and without the demo mode a token is checked by its prefix.
  unfoldable pub validate_mpp_token : String → Bool
  validate_mpp_token token = starts_with "mpp_tok_" token

  abbrev bearer : List String → Option String
  bearer (scheme ∷ token ∷ []) = if str_eq (p.lower scheme) "bearer" then some token else none
  bearer _ = none

  unfoldable pub extract_token : Option String → Option String
  extract_token none = none
  extract_token (some header) = if str_eq header "" then none else bearer (p.split (p.strip header))

  -- `token` where it is there, not empty and valid
  unfoldable pub paid_token : Option String → Option String
  paid_token header = elim (extract_token header) [
    | none ↦ none
    | some token ↦
        if str_eq token "" then none else if validate_mpp_token token then some token else none
  ]

  -- The interaction that follows an earn event; its exceptions are swallowed.
  abbrev pub note_earning : String → ℕ → World → World
  note_earning service cents w = record w {
    tick = w.tick + 1;
    interactions =
        (append_interaction (p.clock w.tick) "Stripe" (concat ("MPP earn: " ∷ service ∷ [])) "agent"
          "ok"
          (record {
            model = none;
            latency_ms = none;
            mode = none;
            metadata = ("amount_cents", int cents) ∷ [];
          })
          w.interactions).1;
  }

  unfoldable pub write_earn_event : String → ℕ → String → Act World Entry
  write_earn_event service cents token w =
      let (r, w') = on_audit (λ now. append_earn now service cents token) w in
      elim r [ err e ↦ (err e, w') | ok entry ↦ (ok entry, note_earning service cents w') ]

  -- `_c1_authorize`
  unfoldable pub c1_authorize : ℕ → String → AuthorizeResult
  c1_authorize tick action =
      authorize tick (issue_nhi (p.clock tick) "str-platform-agent" platform_scopes 3600) action
        "str-platform"

  -- An endpoint from where its token is there
  unfoldable pub serve : String → ℕ → Act World (Dict (Value Float)) → String → Act World Answer
  serve service cents skill token w =
      let decision = c1_authorize w.tick service in
      let w1 : World = record w { tick = w.tick + 2 } in
      if decision.allowed
      then (skill >>= λ result.
            write_earn_event service cents token >>= λ entry. pure (served cents result entry))
          w1
      else (ok (forbidden decision.reason), w1)

  unfoldable pub endpoint :
      String → ℕ → Act World (Dict (Value Float)) → Option String → Act World Answer
  endpoint service cents skill header w = elim (paid_token header) [
    | none ↦ (ok (payment_required cents), w)
    | some token ↦ serve service cents skill token w
  ]

  pub price_endpoint : Act World (Dict (Value Float)) → Option String → Act World Answer
  price_endpoint skill = endpoint "price" price_endpoint_cents skill

  pub aeo_audit_endpoint : Act World (Dict (Value Float)) → Option String → Act World Answer
  aeo_audit_endpoint skill = endpoint "aeo-audit" aeo_audit_endpoint_cents skill

  pub guest_comms_endpoint : Act World (Dict (Value Float)) → Option String → Act World Answer
  guest_comms_endpoint skill = endpoint "guest-comms" guest_comms_endpoint_cents skill
