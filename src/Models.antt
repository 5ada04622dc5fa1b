-- ===== src/Models.antt =====
-- Which model a task goes to (config/model_routing.py), the demo flag (config/demo_mode.py), and a
-- reasoning step that asks Nemotron or takes a cached text (acts/str_owner_agent.py and
-- skills/dynamic_pricing_skill.py).
pub mod Allowed
pub mod Reasoned
use nemoclaw_smb.Base.{
  ℕ, ◌+◌, String, Bool, true, false, not, ◌&&◌, Option, none, some, List, [], ◌∷◌, concat, has_part,
  member, str_eq, if◌then◌else◌,
}
use nemoclaw_smb.Base.Dict.{Dict, get}
use nemoclaw_smb.Base.Act.{Act, Result, ok, err, key_error}
use nemoclaw_smb.Platform.{Platform}
use nemoclaw_smb.World.{World}
use nemoclaw_smb.World.Notes.{noted}

abbrev pub banned_origin_substrings : List String
banned_origin_substrings =
    "qwen" ∷ "deepseek" ∷ "yi-" ∷ "baichuan" ∷ "glm" ∷ "chatglm" ∷ "internlm" ∷ "minimax"
    ∷ "moonshot" ∷ "kimi" ∷ "hunyuan" ∷ []

pub record Provenance (F : Type 0) : Type 0 where
  pub mode : String
  pub model : String
  pub latency_ms : F
  pub source : String

-- no part of a text is one of these
unfoldable pub has_none : List String → String → Bool
has_none [] text = true
has_none (q ∷ qs) text = not (has_part q text) && has_none qs text

module _ ⦃p : Platform⦄ where
  open p use {Float}

  -- `os.environ.get(name, default)`
  abbrev pub env_or : String → String → String
  env_or name default = elim (p.getenv name) [ none ↦ default | some s ↦ s ]

  abbrev pub nemotron_ultra : String
  nemotron_ultra = env_or "NEMOTRON_MODEL" "nvidia/nemotron-ultra-253b-v1"

  abbrev pub hermes_small : String
  hermes_small = env_or "HERMES_MODEL" "nvidia/nemotron-3-super-120b-a12b"

  abbrev pub hermes_nous : String
  hermes_nous = env_or "HERMES_MODEL" "nousresearch/hermes-4-70b"

  unfoldable pub model_routing : Dict String
  model_routing =
      ("anomaly_detection", nemotron_ultra)
      ∷ ("dynamic_pricing", nemotron_ultra)
      ∷ ("aeo_scoring", nemotron_ultra)
      ∷ ("aeo_reasoning", nemotron_ultra)
      ∷ ("revenue_analysis", nemotron_ultra)
      ∷ ("management_fee_audit", nemotron_ultra)
      ∷ ("listing_format", hermes_small)
      ∷ ("guest_message_classify", hermes_small)
      ∷ ("crew_dispatch_template", hermes_small)
      ∷ ("booking_confirmation_template", hermes_small)
      ∷ ("owner_report_template", hermes_small)
      ∷ ("expense_categorize", hermes_small)
      ∷ ("guest_comms", hermes_nous)
      ∷ ("turnover_coordination", hermes_nous)
      ∷ ("performance_analysis", hermes_nous)
      ∷ ("cleaner_scheduling", hermes_nous)
      ∷ []

  -- `_assert_no_chinese_models`: whether the assertions on import pass
  unfoldable pub all_allowed : Dict String → Bool
  all_allowed [] = true
  all_allowed ((task, model) ∷ rest) =
      has_none banned_origin_substrings (p.lower model) && all_allowed rest

  unfoldable pub assert_no_chinese_models : Bool
  assert_no_chinese_models = all_allowed model_routing

  unfoldable pub route_for : String → Result String
  route_for task = elim (get task model_routing) [ none ↦ err key_error | some model ↦ ok model ]

  unfoldable pub demo_mode : Bool
  demo_mode =
      member (p.lower (p.strip (env_or "DEMO_MODE" "true"))) ("1" ∷ "true" ∷ "yes" ∷ "on" ∷ [])

  -- `bool(os.environ.get("NVIDIA_NIM_API_KEY"))`
  unfoldable pub nemotron_available : Bool
  nemotron_available = not (str_eq (env_or "NVIDIA_NIM_API_KEY" "") "")

  -- The note of a reasoning step in the interactions log.
  unfoldable pub note_reasoning : String → String → String → Provenance Float → World → World
  note_reasoning op segment status provenance = noted "NVIDIA" op segment status (record {
    model = some provenance.model;
    latency_ms = some provenance.latency_ms;
    mode = some provenance.mode;
    metadata = [];
  })

  -- A reasoning step: the model's answer where a live call is asked for and can be made, and
  -- otherwise a cached text.
  unfoldable pub reasoned :
      String
      → String
      → String
      → Bool
      → String
      → String
      → World
      → (String × Provenance Float) × World
  reasoned op segment model live prompt cached w =
      if live && nemotron_available
      then (let made : Provenance Float = record {
        mode = "live";
        model = model;
        latency_ms = p.latency_ms w.tick;
        source = "nemotron";
      } in
          (
            (p.call_nemotron w.tick prompt, made),
            note_reasoning op segment "ok" made (record w { tick = w.tick + 2 }),
          ))
      else (let made : Provenance Float = record {
        mode = "demo";
        model = concat (model ∷ "[demo-cached]" ∷ []);
        latency_ms = p.of_ℕ 0;
        source = "cached";
      } in
          ((cached, made), note_reasoning op segment "cached" made w))
