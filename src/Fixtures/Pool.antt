-- ===== src/Fixtures/Pool.antt =====
-- A small router configuration: two models on one provider and one on another.
use jev_router.Common.{ℕ, Bool, true, false, String, List, [], ◌∷◌, none, some}
use jev_router.Fixtures.{fixed}
use jev_router.Fixtures.Turns.{cfg}
use jev_router.Features.{Features}
use jev_router.Config.Adaptive.{Mode}
use jev_router.Config.Lanes.{QualityLaneCfg}
use jev_router.Config.Routes.{Route}
use jev_router.Config.Conditions.{Op, answer}
use jev_router.Config.Router.{
  ModelCfg, EffortStyle, Protocol, Rule, Ruleset, RulesRef, AliasCfg, SessionMode, RouterConfig,
  QuestionType,
}

abbrev model : String → ℕ → Bool → List String → ModelCfg
model provider window vision efforts = record {
  upstream_id = "up";
  provider = provider;
  context_window = window;
  supports_tools = true;
  supports_vision = vision;
  efforts = efforts;
  default_effort = none;
  effort_style = EffortStyle.param;
  quota_cost = 10000;
  protocol = Protocol.openai_chat;
  max_output_tokens = some 8000;
}

abbrev pub fast : ModelCfg
fast = model "p" 100000 false ("low" ∷ "high" ∷ [])

abbrev pub use_model : String → String → Route
use_model m effort = record { model = some m; effort = some effort; route = none }

-- Hard work goes to the named route; its threshold shifts with the pressure on `p`.
abbrev pub hard_rule : Rule
hard_rule = record {
  name = "hard";
  when =
      answer "difficulty"
        (record { ops = Op.gte 18000 ∷ []; shift_with = some "p"; max_shift = some 5000 })
      ∷ [];
  use_route = record { model = none; effort = none; route = some "strong" };
  protected = false;
  lane = "code";
}

abbrev pub rules : Ruleset
rules = record {
  rules = hard_rule ∷ [];
  default = some (use_model "fast" "low");
  low_confidence = none;
}

abbrev pub code_lane : QualityLaneCfg
code_lane = record {
  qualification_ref = "pool";
  qualified =
      record { model = "big"; effort = some "high"; qualification_ref = "r1" }
      ∷ record { model = "wide"; effort = none; qualification_ref = "r2" }
      ∷ [];
  conservative_default = some (use_model "big" "high");
}

abbrev pub config : RouterConfig
config = record {
  settings = record {
    effort_order = "none" ∷ "low" ∷ "medium" ∷ "high" ∷ [];
    default_route = use_model "fast" "low";
  };
  models =
      ("fast", fast)
      ∷ ("big", model "p" 200000 true ("low" ∷ "medium" ∷ "high" ∷ []))
      ∷ ("wide", model "q" 400000 true ("low" ∷ "high" ∷ []))
      ∷ [];
  questions =
      ("difficulty", record { type = QuestionType.score; criteria = "0" ∷ "1" ∷ "2" ∷ "3" ∷ [] })
      ∷ [];
  routes =
      (
        "strong",
        record {
          primary = record { model = "big"; effort = some "high"; equivalent = false };
          fallbacks =
              record { model = "wide"; effort = some "high"; equivalent = true }
              ∷ record { model = "fast"; effort = some "high"; equivalent = false }
              ∷ [];
        },
      )
      ∷ [];
  policy = rules;
  rulesets = [];
  clients = ("ide", record { min_effort = some "medium"; allowed_models = none }) ∷ [];
  quota_policy = record {
    enabled = true;
    pressure_starts_at = 0;
    pressure_full_at = 250000;
    full_used_percent = 900000;
    raw_starts_at = 600000;
    raw_full_at = 950000;
    hysteresis = 500;
    max_change_per_poll = 2500;
    demote_above = 6000;
    exhausted_at = 1000000;
  };
  semantic_policy = record {
    active_questions = [];
    shadow_questions = [];
    distribution_policy = Mode.off;
  };
  quality_lanes = ("code", code_lane) ∷ [];
  adaptive_effort = cfg;
}

abbrev pub strict_alias : AliasCfg
strict_alias = record {
  questions = "difficulty" ∷ [];
  rules = RulesRef.named "policy";
  allowed_models = none;
  max_effort = some "high";
  session_mode = SessionMode.strict;
  static_envelope = none;
  adaptive_effort = false;
}

abbrev pub legacy_alias : AliasCfg
legacy_alias = record strict_alias { session_mode = SessionMode.legacy }

abbrev pub request : Features
request = record {
  message_count = 3;
  est_tokens = 120000;
  has_tools = true;
  tool_names = [];
  has_images = false;
  has_code = true;
  languages = [];
  client = "ide";
  stream = true;
  max_tokens = 8000;
}
