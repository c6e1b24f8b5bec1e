-- ===== src/Policy/Select.antt =====
-- The whole admission decision (`select`, `_rule_lane` and `_repair_into_lane` of
-- src/jev_router/policy.py), without the notes' texts.
pub mod Qualified
pub mod Sendable
mod Tests
use jev_router.Common.{
  Bool, true, false, not, ◌&&◌, String, str_eq, List, [], ◌∷◌, ◌++◌, map, Option, none, some, ok,
  err, ◌>>=◌, keep, lookup, if◌then◌else◌,
}
use jev_router.Common.Float.{Float}
use jev_router.Features.{Features}
use jev_router.Config.Routes.{Effort, Pair, Route}
use jev_router.Config.Lanes.{QualityLaneCfg, allows, pairs, reference_for}
use jev_router.Config.Router.{
  AliasCfg, Rule, Ruleset, RouterConfig, SessionMode, strict, legacy, route_pairs, provider_of,
}
use jev_router.Policy.Failures.{Failure, Routed, not_in_lane}
use jev_router.Policy.Answers.{Answers}
use jev_router.Policy.Eligible.{Exclusion, excluded_models}
use jev_router.Policy.Match.{Shift, Pressures}
use jev_router.Policy.Routes.{live_pressures}
use jev_router.Policy.Finalize.{
  PlanEntry, PolicyResult, same_pair, seen_in, guard_candidate, plan_entry,
}
use jev_router.Policy.Evaluate.{
  Evaluation, ExperimentalRoute, chosen, evaluate, the_ruleset, evaluate_run,
}

-- A row of `result.exclusions`.
pub data ExclusionRow : Type 0 where
  excluded : String → Exclusion → ExclusionRow
  not_qualified not_qualified_under_pressure : Pair → String → ExclusionRow

is_strict : SessionMode → Bool
is_strict strict = true
is_strict legacy = false

module _ ⦃f : Float⦄ where
  pub record Selection : Type 0 where
    pub evaluation : Evaluation
    pub lane : String
    pub qualification_ref : String
    pub counterfactual : Pair
    pub exclusions : List ExclusionRow
    -- `evidence == "qualified"`
    pub qualified : Bool

  lane_in : RouterConfig → String → List Rule → String × Option QualityLaneCfg
  lane_in config name [] = ("", none)
  lane_in config name (rule ∷ rules) =
      if str_eq rule.name name && not (str_eq rule.lane "")
      then (rule.lane, lookup rule.lane config.quality_lanes)
      else lane_in config name rules

  pub rule_lane : RouterConfig → Ruleset → String → String × Option QualityLaneCfg
  rule_lane config rs name = lane_in config name rs.rules

  -- `order.extend(p for p in pairs if p not in order)`: the list grows while it is read.
  extended : List Pair → List Pair → List Pair
  extended order [] = order
  extended order (p ∷ ps) =
      if seen_in order p then extended order ps else extended (order ++ p ∷ []) ps

  default_order : RouterConfig → QualityLaneCfg → Option Route → List Pair
  default_order config lane none = []
  default_order config lane (some route) = keep (allows lane) (route_pairs config route)

  repair_order : RouterConfig → QualityLaneCfg → List Pair
  repair_order config lane =
      extended (default_order config lane lane.conservative_default) (pairs lane)

  -- `except RoutingError: continue`, and a pair that the guards moved out of the lane is passed by.
  accept : QualityLaneCfg → Routed Pair → Routed Pair → Routed Pair
  accept lane (err why) rest = rest
  accept lane (ok guarded) rest = if allows lane guarded then ok guarded else rest

  pub first_in_lane :
      RouterConfig → AliasCfg → Features → QualityLaneCfg → String → List Pair → Routed Pair
  first_in_lane config alias_cfg features lane name [] = err (not_in_lane name)
  first_in_lane config alias_cfg features lane name ((model, effort) ∷ ps) =
      accept lane (guard_candidate config alias_cfg features model effort)
        (first_in_lane config alias_cfg features lane name ps)

  -- The choice, and whether it is the object that holds the calm one: a repair of that object
  -- changes both.
  pub record Draft : Type 0 where
    pub evaluation : Evaluation
    pub is_calm : Bool
    pub exclusions : List ExclusionRow

  abbrev pub pair_of : Evaluation → Pair
  pair_of e = chosen e.result

  set_choice : RouterConfig → Evaluation → Pair → Evaluation
  set_choice config e p = record e {
    result = record e.result { model = p.0; effort = p.1; plan = plan_entry config p false ∷ [] };
  }

  -- Put an unqualified choice back inside its lane, or refuse.
  repair_into_lane :
      RouterConfig → AliasCfg → Features → QualityLaneCfg → String → Draft → Routed Draft
  repair_into_lane config alias_cfg features lane name d =
      first_in_lane config alias_cfg features lane name (repair_order config lane) >>= λ p.
      ok (record d {
        evaluation = set_choice config d.evaluation p;
        exclusions = d.exclusions ++ not_qualified (pair_of d.evaluation) name ∷ [];
      })

  -- The calm choice in place of one that pressure found and that the lane has no evidence for.
  deferred : Evaluation → String → Draft → Draft
  deferred calm name d = record {
    evaluation = record calm {
      shifts = d.evaluation.shifts;
      experiments = d.evaluation.experiments;
      pressure_changed_the_outcome = false;
    };
    is_calm = true;
    exclusions = d.exclusions ++ not_qualified_under_pressure (pair_of d.evaluation) name ∷ [];
  }

  has_any : Pressures → Bool
  has_any [] = false
  has_any (p ∷ ps) = true

  defer : Pressures → Evaluation → QualityLaneCfg → String → Draft → Draft
  defer live calm lane name d =
      if has_any live
        && not (same_pair (pair_of d.evaluation) (pair_of calm))
        && not (allows lane (pair_of d.evaluation))
      then deferred calm name d
      else d

  repair : RouterConfig → AliasCfg → Features → QualityLaneCfg → String → Draft → Routed Draft
  repair config alias_cfg features lane name d =
      if allows lane (pair_of d.evaluation)
      then ok d
      else repair_into_lane config alias_cfg features lane name d

  selection : QualityLaneCfg → String → Evaluation → Draft → Selection
  selection lane name calm d =
      let pair = pair_of d.evaluation in
      record {
        evaluation = d.evaluation;
        lane = name;
        qualification_ref = reference_for lane pair;
        counterfactual = pair_of calm;
        exclusions = d.exclusions;
        qualified = allows lane pair && allows lane (if d.is_calm then pair else pair_of calm);
      }

  select_in :
      RouterConfig
      → AliasCfg
      → Features
      → Pressures
      → Evaluation
      → Draft
      → String × Option QualityLaneCfg
      → Routed Selection
  select_in config alias_cfg features live calm d (name, none) = ok (record {
    evaluation = d.evaluation;
    lane = name;
    qualification_ref = "";
    counterfactual = pair_of calm;
    exclusions = d.exclusions;
    qualified = false;
  })
  select_in config alias_cfg features live calm d (name, some lane) =
      repair config alias_cfg features lane name (defer live calm lane name d) >>= λ repaired.
      ok (selection lane name calm repaired)

  -- `run(…, live, …) if live else calm`
  run_live :
      RouterConfig → AliasCfg → Answers → Features → Evaluation → Pressures → Routed Evaluation
  run_live config alias_cfg answers features calm [] = ok calm
  run_live config alias_cfg answers features calm (p ∷ ps) =
      evaluate config alias_cfg answers features (p ∷ ps) (is_strict alias_cfg.session_mode)

  exclusion_row : String × Exclusion → ExclusionRow
  exclusion_row (model, why) = excluded model why

  draft : RouterConfig → AliasCfg → Features → Pressures → Evaluation → Draft
  draft config alias_cfg features live result = record {
    evaluation = result;
    is_calm = not (has_any live);
    exclusions = map exclusion_row (excluded_models config alias_cfg features);
  }

  -- Strict aliases take the lane of the rule that matched without pressure.
  lane_rule : AliasCfg → Evaluation → Evaluation → String
  lane_rule alias_cfg calm result =
      if is_strict alias_cfg.session_mode then calm.result.rule else result.result.rule

  select_from :
      RouterConfig → AliasCfg → Answers → Features → Pressures → Ruleset → Routed Selection
  select_from config alias_cfg answers features live rs =
      evaluate config alias_cfg answers features [] false >>= λ calm.
      run_live config alias_cfg answers features calm live >>= λ result.
      select_in config alias_cfg features live calm (draft config alias_cfg features live result)
        (rule_lane config rs (lane_rule alias_cfg calm result))

  pub select : RouterConfig → AliasCfg → Answers → Features → Pressures → Routed Selection
  select config alias_cfg answers features pressures = the_ruleset config alias_cfg >>= λ rs.
      select_from config alias_cfg answers features (live_pressures config pressures) rs

-- What a test opens to run the functions of this file.
unfoldable pub select_run : Unit {0}
unfolding is_strict lane_in rule_lane extended default_order repair_order accept first_in_lane
    set_choice repair_into_lane deferred has_any defer repair selection select_in run_live
    exclusion_row draft lane_rule select_from select evaluate_run allows pairs reference_for
    route_pairs lookup keep
select_run = tt
