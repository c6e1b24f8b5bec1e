-- ===== src/Policy/Evaluate.antt =====
-- One pass of the policy (`evaluate`, `_differs_without_pressure` and `_experiment_routes` of
-- src/jev_router/policy.py), without the notes' texts and the collector that a trace fills. A
-- KeyError, which config load rules out, is caught with the RoutingErrors of an experiment.
pub mod Finalized
use jev_router.Common.{
  Bool, true, false, not, ◌&&◌, String, str_eq, List, [], ◌∷◌, ◌++◌, map, Option, none, some,
  Result, ok, err, ◌>>=◌, opt_eq, if◌then◌else◌,
}
use jev_router.Common.Float.{Float}
use jev_router.Features.{Features}
use jev_router.Config.Adaptive.{Mode, off, shadow, active}
use jev_router.Config.Routes.{Effort, Pair}
use jev_router.Config.Router.{AliasCfg, Ruleset, RouterConfig, ruleset_for}
use jev_router.Policy.Failures.{Failure, Routed, key_error}
use jev_router.Policy.Answers.{Answers, experiment_rules}
use jev_router.Policy.Match.{Shift, Pressures}
use jev_router.Policy.Rules.{Pick}
use jev_router.Policy.Gate.{pick_route, gate_run}
use jev_router.Policy.Routes.{live_pressures}
use jev_router.Policy.Finalize.{PlanEntry, PolicyResult, as_pair, same_pair, finalize, finalize_run}

is_off : Mode → Bool
is_off off = true
is_off _ = false

is_active : Mode → Bool
is_active active = true
is_active _ = false

same_pairs : List Pair → List Pair → Bool
same_pairs [] [] = true
same_pairs (p ∷ ps) (q ∷ qs) = same_pair p q && same_pairs ps qs
same_pairs _ _ = false

abbrev pub chosen : PolicyResult → Pair
chosen r = (r.model, r.effort)

-- `rule` holds the error where the experiment had no route.
pub record ExperimentalRoute : Type 0 where
  pub policy : String
  pub model : String
  pub effort : Effort
  pub rule : Routed String
  pub changed : Bool

experimental_route : String → Pair → Routed PolicyResult → ExperimentalRoute
experimental_route policy real (err why) = record {
  policy = policy;
  model = "";
  effort = none;
  rule = err why;
  changed = true;
}
experimental_route policy real (ok alt) = record {
  policy = policy;
  model = alt.model;
  effort = alt.effort;
  rule = ok alt.rule;
  changed = not (same_pair (chosen alt) real);
}

many : List String → List (String × List String)
many (a ∷ b ∷ rest) = ("all", a ∷ b ∷ rest) ∷ []
many _ = []

-- The experimental policies that are compared, with the rules that each runs.
wanted : Mode → List String → List (String × List String)
wanted active experiments = ("mean_only", []) ∷ []
wanted _ experiments = map (λ (name : String). (name, name ∷ [])) experiments ++ many experiments

module _ ⦃f : Float⦄ where
  -- What `evaluate` fills of a PolicyResult.
  pub record Evaluation : Type 0 where
    pub result : PolicyResult
    pub shifts : List Shift
    pub pressure_changed_the_outcome : Bool
    pub experiments : List ExperimentalRoute

  routed :
      RouterConfig
      → AliasCfg
      → Ruleset
      → Answers
      → Features
      → Pressures
      → List String
      → Routed PolicyResult
  routed config alias_cfg rs answers features pressures running =
      finalize config alias_cfg (pick_route config rs answers features pressures running).0 features
        pressures

  experiment_routes :
      RouterConfig
      → AliasCfg
      → Ruleset
      → Answers
      → Features
      → Pressures
      → PolicyResult
      → Mode
      → List String
      → List ExperimentalRoute
  experiment_routes config alias_cfg rs answers features pressures real mode experiments =
      map
        (λ (w : String × List String).
          experimental_route w.0 (chosen real)
            (routed config alias_cfg rs answers features pressures w.1))
        (wanted mode experiments)

  same_outcome : PolicyResult → PolicyResult → Bool
  same_outcome a b =
      same_pair (chosen a) (chosen b) && same_pairs (map as_pair a.plan) (map as_pair b.plan)

  -- Would the same request have gone somewhere else at pressure zero?
  differs_without_pressure :
      RouterConfig
      → AliasCfg
      → Ruleset
      → Answers
      → Features
      → PolicyResult
      → List String
      → Routed Bool
  differs_without_pressure config alias_cfg rs answers features result running =
      routed config alias_cfg rs answers features [] running >>= λ calm.
      ok (not (same_outcome calm result))

  changed_by :
      RouterConfig
      → AliasCfg
      → Ruleset
      → Answers
      → Features
      → PolicyResult
      → List String
      → Pressures
      → Routed Bool
  changed_by config alias_cfg rs answers features result running [] = ok false
  changed_by config alias_cfg rs answers features result running (p ∷ ps) =
      differs_without_pressure config alias_cfg rs answers features result running

  experiments_of :
      RouterConfig
      → AliasCfg
      → Ruleset
      → Answers
      → Features
      → Pressures
      → PolicyResult
      → Mode
      → List String
      → List ExperimentalRoute
  experiments_of config alias_cfg rs answers features live result mode [] = []
  experiments_of config alias_cfg rs answers features live result mode (e ∷ es) =
      if is_off mode
      then []
      else experiment_routes config alias_cfg rs answers features live result mode (e ∷ es)

  ruleset_or_error : Option Ruleset → Routed Ruleset
  ruleset_or_error none = err (key_error "rules")
  ruleset_or_error (some rs) = ok rs

  pub the_ruleset : RouterConfig → AliasCfg → Routed Ruleset
  the_ruleset config alias_cfg = ruleset_or_error (ruleset_for config alias_cfg)

  running_of : Mode → List String → List String
  running_of mode experiments = if is_active mode then experiments else []

  evaluate_with :
      RouterConfig → AliasCfg → Ruleset → Answers → Features → Pressures → Bool → Routed Evaluation
  evaluate_with config alias_cfg rs answers features live freeze_rule_pressure =
      let mode = config.semantic_policy.distribution_policy in
      let experiments = experiment_rules rs in
      let running = running_of mode experiments in
      let picked =
        pick_route config rs answers features (if freeze_rule_pressure then [] else live) running in
      finalize config alias_cfg picked.0 features live >>= λ result.
      changed_by config alias_cfg rs answers features result running live >>= λ changed.
      ok (record {
        result = result;
        shifts = picked.1;
        pressure_changed_the_outcome = changed;
        experiments =
            experiments_of config alias_cfg rs answers features live result mode experiments;
      })

  -- Choose a route.
  pub evaluate : RouterConfig → AliasCfg → Answers → Features → Pressures → Bool → Routed Evaluation
  evaluate config alias_cfg answers features pressures freeze_rule_pressure =
      the_ruleset config alias_cfg >>= λ rs.
      evaluate_with config alias_cfg rs answers features (live_pressures config pressures)
        freeze_rule_pressure

-- What a test opens to run the functions of this file.
unfoldable pub evaluate_run : Unit {0}
unfolding is_off is_active same_pairs experimental_route many wanted routed experiment_routes
    same_outcome differs_without_pressure changed_by experiments_of ruleset_or_error the_ruleset
    running_of evaluate_with evaluate experiment_rules ruleset_for gate_run finalize_run
evaluate_run = tt
