-- ===== src/Config/Router.antt =====
-- Models, aliases, clients, rules and the lookups on them (src/jev_router/config.py). A record
-- holds the fields that the modelled code reads.
use jev_router.Common.{
  ℕ, Bool, String, str_eq, List, [], ◌∷◌, map, Option, none, some, lookup, if◌then◌else◌,
}
use jev_router.Common.Float.{Float, Number}
use jev_router.Config.Adaptive.{AdaptiveEffortCfg, Mode}
use jev_router.Config.Conditions.{Condition}
use jev_router.Config.Routes.{Effort, Pair, Route, RouteEntry, Lane, entries}
use jev_router.Config.Lanes.{QualityLaneCfg}

pub data EffortStyle : Type 0 where
  suffix param none' : EffortStyle

pub data Protocol : Type 0 where
  openai_chat openai_responses : Protocol

pub data SessionMode : Type 0 where
  legacy strict : SessionMode

pub data QuestionType : Type 0 where
  choice score noul : QuestionType

-- `criteria` as the list of its labels or levels.
pub record Question : Type 0 where
  pub type : QuestionType
  pub criteria : List String

pub record ClientCfg : Type 0 where
  pub min_effort : Effort
  pub allowed_models : Option (List String)

pub record StaticEnvelopeCfg : Type 0 where
  pub enabled : Bool
  pub model_name : String
  pub context_window : Option ℕ
  pub max_output_tokens : Option ℕ

module _ ⦃f : Float⦄ where
  pub record ModelCfg : Type 0 where
    pub upstream_id : String
    pub provider : String
    pub context_window : ℕ
    pub supports_tools : Bool
    pub supports_vision : Bool
    pub efforts : List String
    pub default_effort : Effort
    pub effort_style : EffortStyle
    pub quota_cost : Number
    pub protocol : Protocol
    pub max_output_tokens : Option ℕ

  pub record Rule : Type 0 where
    pub name : String
    pub when : List Condition
    pub use_route : Route
    pub protected : Bool
    pub lane : String

  pub record LowConfidence : Type 0 where
    pub min_confidence : Number
    pub questions : List String
    pub use_route : Option Route
    pub action_equivalent : Bool
    pub equivalence_min_mass : Number
    pub skip_when_top_is_noise : List String
    pub score_top_min_mass : Number

  pub record Ruleset : Type 0 where
    pub rules : List Rule
    pub default : Option Route
    pub low_confidence : Option LowConfidence

  -- `rules: str | Ruleset`
  pub data RulesRef : Type 0 where
    named : String → RulesRef
    inline : Ruleset → RulesRef

  pub record AliasCfg : Type 0 where
    pub questions : List String
    pub rules : RulesRef
    pub allowed_models : Option (List String)
    pub max_effort : Effort
    pub session_mode : SessionMode
    pub static_envelope : Option StaticEnvelopeCfg
    pub adaptive_effort : Bool

  pub record QuotaPolicyCfg : Type 0 where
    pub enabled : Bool
    pub pressure_starts_at : Number
    pub pressure_full_at : Number
    pub full_used_percent : Number
    pub raw_starts_at : Number
    pub raw_full_at : Number
    pub hysteresis : Number
    pub max_change_per_poll : Number
    pub demote_above : Number
    pub exhausted_at : Number

  pub record SemanticPolicyCfg : Type 0 where
    pub active_questions : List String
    pub shadow_questions : List String
    pub distribution_policy : Mode

  pub record Settings : Type 0 where
    pub effort_order : List String
    pub default_route : Route

  pub record RouterConfig : Type 0 where
    pub settings : Settings
    pub models : List (String × ModelCfg)
    pub questions : List (String × Question)
    pub routes : List (String × Lane)
    pub policy : Ruleset
    pub rulesets : List (String × Ruleset)
    pub clients : List (String × ClientCfg)
    pub quota_policy : QuotaPolicyCfg
    pub semantic_policy : SemanticPolicyCfg
    pub quality_lanes : List (String × QualityLaneCfg)
    pub adaptive_effort : AdaptiveEffortCfg

  -- `self.rulesets[name]`; a name that is not there is a KeyError, which config load rules out.
  ruleset_named : RouterConfig → String → Option Ruleset
  unfolding lookup
  ruleset_named config name =
      if str_eq name "policy" then some config.policy else lookup name config.rulesets

  ruleset_by : RouterConfig → RulesRef → Option Ruleset
  unfolding ruleset_named
  ruleset_by config (inline r) = some r
  ruleset_by config (named name) = ruleset_named config name

  unfoldable pub ruleset_for : RouterConfig → AliasCfg → Option Ruleset
  unfolding ruleset_by
  ruleset_for config alias_cfg = ruleset_by config alias_cfg.rules

  provider_in : Option ModelCfg → String
  provider_in none = "default"
  provider_in (some m) = if str_eq m.provider "" then "default" else m.provider

  unfoldable pub provider_of : RouterConfig → String → String
  unfolding provider_in lookup
  provider_of config model_id = provider_in (lookup model_id config.models)

  lane_pairs : Option Lane → List Pair
  unfolding entries
  lane_pairs none = []
  lane_pairs (some lane) = map (λ (e : RouteEntry). (e.model, e.effort)) (entries lane)

  or_empty : Option String → String
  or_empty none = ""
  or_empty (some s) = s

  -- Every model and effort that a `use:` could reach, primary and fallbacks.
  unfoldable pub route_pairs : RouterConfig → Route → List Pair
  unfolding lane_pairs or_empty lookup
  route_pairs config route = elim route.route [
    | some n ↦ lane_pairs (lookup n config.routes)
    | none ↦ (or_empty route.model, route.effort) ∷ []
  ]
