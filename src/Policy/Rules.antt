-- ===== src/Policy/Rules.antt =====
-- The list of rules (`_match_rules` of src/jev_router/policy.py), without the texts and the trace
-- that it builds for the inspector.
pub mod Fires
pub mod Pressure
use jev_router.Common.{
  ℕ, ◌-◌, Bool, true, false, not, ◌&&◌, ◌||◌, String, List, [], ◌∷◌, ◌++◌, map, Option, none, some,
  any, keep, every, contains, leb, lookup, length, opt_eq, if◌then◌else◌, ◌==◌,
}
use jev_router.Common.Float.{Float, Number, ◌<=◌, ◌<<◌}
use jev_router.Common.Sorted.{sort_by, ascending}
use jev_router.Features.{Features}
use jev_router.Config.Conditions.{Value, label, number}
use jev_router.Config.Routes.{Route}
use jev_router.Config.Router.{Rule, Ruleset, QuestionType, Question, RouterConfig, LowConfidence}
use jev_router.Policy.Answers.{Answer, Answers, Probabilities, rule_uses_distribution}
use jev_router.Policy.Match.{Shift, Pressures, matches, match_run}

module _ ⦃f : Float⦄ where
  -- What the gate and the rules chose: the route, the name of the rule and whether it is protected.
  pub record Pick : Type 0 where
    pub use_route : Route
    pub name : String
    pub protected : Bool

  -- `{} if rule.protected else pressures`
  pub applied : Rule → Pressures → Pressures
  applied rule pressures = if rule.protected then [] else pressures

  pub is_skipped : List String → Rule → Bool
  is_skipped running rule = not (contains running rule.name) && rule_uses_distribution rule

  pub hits : Answers → Features → Pressures → Rule → Bool × List Shift
  hits answers features pressures rule =
      matches rule.when answers features (applied rule pressures) rule.name

  has_any : List Shift → Bool
  has_any [] = false
  has_any (s ∷ ss) = true

  -- The shifts of a rule that did not fire are recorded where they are the only reason for it.
  decisive : Answers → Features → Rule → List Shift → List Shift
  decisive answers features rule seen =
      if has_any seen && (matches rule.when answers features [] rule.name).0 then seen else []

  record_shifts : List Shift → Option Rule × List Shift → Option Rule × List Shift
  record_shifts seen (hit, later) = (hit, seen ++ later)

  step_rule :
      Answers
      → Features
      → Rule
      → Bool × List Shift
      → Option Rule × List Shift
      → Option Rule × List Shift
  step_rule answers features rule (true, seen) rest = (some rule, seen)
  step_rule answers features rule (false, seen) rest =
      record_shifts (decisive answers features rule seen) rest

  -- The loop over the rules: the first that fires, and the shifts that were recorded.
  pub first_rule :
      List Rule → Answers → Features → Pressures → List String → Option Rule × List Shift
  first_rule [] answers features pressures running = (none, [])
  first_rule (rule ∷ rules) answers features pressures running =
      let rest = first_rule rules answers features pressures running in
      if is_skipped running rule
      then rest
      else step_rule answers features rule (hits answers features pressures rule) rest

  or_route : Option Route → Route → Route
  or_route none r = r
  or_route (some r) _ = r

  pub default_pick : RouterConfig → Ruleset → Pick
  default_pick config rs = record {
    use_route = or_route rs.default config.settings.default_route;
    name = "default";
    protected = true;
  }

  pub rule_pick : Rule → Pick
  rule_pick rule = record {
    use_route = rule.use_route;
    name = rule.name;
    protected = rule.protected;
  }

  pick_of : RouterConfig → Ruleset → Option Rule × List Shift → Pick × List Shift
  pick_of config rs (none, shifts) = (default_pick config rs, shifts)
  pick_of config rs (some rule, shifts) = (rule_pick rule, shifts)

  pub match_rules :
      RouterConfig → Ruleset → Answers → Features → Pressures → List String → Pick × List Shift
  match_rules config rs answers features pressures running =
      pick_of config rs (first_rule rs.rules answers features pressures running)

-- What a test opens to run the functions of this file.
unfoldable pub rules_run : Unit {0}
unfolding applied is_skipped hits has_any decisive record_shifts step_rule first_rule or_route
    default_pick rule_pick pick_of match_rules match_run contains rule_uses_distribution
rules_run = tt
