-- ===== src/PlatformAgent.antt =====
-- The platform agent (acts/platform_agent.py): paid calls of the pricing, AEO and guest skills with
-- the metrics that they add up to. The AEO and guest skills are arguments.
pub mod Earnings
use nemoclaw_smb.Base.{
  ℕ, ◌+◌, String, Bool, true, false, Option, none, some, List, [], ◌∷◌, ◌++◌, concat, length,
  member, sort, str_le, if◌then◌else◌,
}
use nemoclaw_smb.Base.Dict.{Dict}
use nemoclaw_smb.Base.Act.{Act, Result, ok, err, pure, ◌>>=◌}
use nemoclaw_smb.Json.{int}
use nemoclaw_smb.Platform.{Platform}
use nemoclaw_smb.Chain.{Entry}
use nemoclaw_smb.Earn.{
  aeo_audit_endpoint_cents, c1_authorize, guest_comms_endpoint_cents, price_endpoint_cents,
  write_earn_event,
}
use nemoclaw_smb.Models.{Provenance}
use nemoclaw_smb.Pricing.{PricingRecommendation, PricingRequest, recommend_price}
use nemoclaw_smb.World.{World}
use nemoclaw_smb.World.Notes.{noted}

-- `_PlatformMetrics`; the set of properties is a list without repetitions
pub record Metrics : Type 0 where
  pub calls_served : ℕ
  pub revenue_earned_cents : ℕ
  pub properties_optimized : List String

-- `reset_metrics`
abbrev pub no_metrics : Metrics
no_metrics = record { calls_served = 0; revenue_earned_cents = 0; properties_optimized = [] }

-- `set.add`
unfoldable pub add_to : String → List String → List String
add_to s l = if member s l then l else l ++ (s ∷ [])

abbrev with_property : Option String → List String → List String
with_property none l = l
with_property (some s) l = add_to s l

-- A call that was served: its price, and the property that it optimizes.
abbrev pub counted : ℕ → Option String → Metrics → Metrics
counted cents property m = record {
  calls_served = m.calls_served + 1;
  revenue_earned_cents = m.revenue_earned_cents + cents;
  properties_optimized = with_property property m.properties_optimized;
}

module _ ⦃p : Platform⦄ where
  open p use {Float}

  -- What `get_metrics` returns.
  pub record Snapshot : Type 0 where
    pub calls_served : ℕ
    pub revenue_earned_cents : ℕ
    pub revenue_earned_dollars : Float
    pub properties_optimized : ℕ
    pub property_ids : List String

  pub get_metrics : Metrics → Snapshot
  get_metrics m = record {
    calls_served = m.calls_served;
    revenue_earned_cents = m.revenue_earned_cents;
    revenue_earned_dollars = p.div (p.of_ℕ m.revenue_earned_cents) (p.of_ℕ 100);
    properties_optimized = length m.properties_optimized;
    property_ids = sort str_le m.properties_optimized;
  }

  -- The process of the agent: the world and the metrics.
  pub record Session : Type 0 where
    pub world : World
    pub metrics : Metrics

  -- What a call returns: the denial with its reason, or what the skill made with the earn event.
  pub data Served (A : Type 0) : Type 0 where
    denied : String → Served A
    served : ℕ → A → Entry → Served A

  -- the skill, then the earn event
  unfoldable pub earn : {A : Type 0} → String → ℕ → String → Act World A → Act World (A × Entry)
  earn service cents token skill =
      skill >>= λ made. write_earn_event service cents token >>= λ entry. pure (made, entry)

  -- A call of a service at a price, on a property, with what follows the earn event in the world.
  unfoldable pub serve_call :
      {A : Type 0}
      → String
      → ℕ
      → Option String
      → String
      → (A → World → World)
      → Act World A
      → Act Session (Served A)
  serve_call service cents property token after skill s =
      let decision = c1_authorize s.world.tick service in
      let w1 : World = record s.world { tick = s.world.tick + 2 } in
      if decision.allowed
      then (let (r, w2) = earn service cents token skill w1 in
          elim r [
            | err x ↦ (err x, record { world = w2; metrics = s.metrics })
            | ok (made, entry) ↦ (
              ok (served cents made entry),
              record { world = after made w2; metrics = counted cents property s.metrics },
            )
          ])
      else (
        ok (denied (concat ("C1 governance denied: " ∷ decision.reason ∷ []))),
        record { world = w1; metrics = s.metrics },
      )

  abbrev nothing_after : {A : Type 0} → A → World → World
  nothing_after made w = w

  pub serve_pricing_call :
      PricingRequest → String → Bool → Act Session (Served PricingRecommendation)
  serve_pricing_call req demo_token live =
      serve_call "price" price_endpoint_cents (some req.property_id) demo_token nothing_after
        (recommend_price req live)

  pub serve_aeo_call : {A : Type 0} → Act World A → String → Act Session (Served A)
  serve_aeo_call audit_listing demo_token =
      serve_call "aeo-audit" aeo_audit_endpoint_cents none demo_token nothing_after audit_listing

  pub record GuestReply : Type 0 where
    pub intent : String
    pub message : String
    pub upsell : String
    pub reasoning_provenance : Provenance Float

  -- the note of a guest call in the interactions log
  abbrev pub note_guest : GuestReply → World → World
  note_guest reply = noted "Nous Research" "guest comms (Sales)" "agent" "ok" (record {
    model = some reply.reasoning_provenance.model;
    latency_ms = some reply.reasoning_provenance.latency_ms;
    mode = some reply.reasoning_provenance.mode;
    metadata = ("amount_cents", int guest_comms_endpoint_cents) ∷ [];
  })

  pub serve_guest_comms_call :
      Act World GuestReply → String → String → Act Session (Served GuestReply)
  serve_guest_comms_call draft_guest_comms property_id demo_token =
      serve_call "guest-comms" guest_comms_endpoint_cents (some property_id) demo_token note_guest
        draft_guest_comms
