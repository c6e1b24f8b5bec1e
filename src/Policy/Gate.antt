-- ===== src/Policy/Gate.antt =====
-- The low confidence gate (`_pick_route` and `_action_equivalent` of src/jev_router/policy.py),
-- without the texts and the trace that it builds for the inspector.
pub mod Equivalence
mod Tests
use jev_router.Common.{
  ℕ, ◌-◌, Bool, true, false, not, ◌&&◌, ◌||◌, String, List, [], ◌∷◌, ◌++◌, map, Option, none, some,
  any, keep, every, contains, leb, lookup, length, opt_eq, if◌then◌else◌, ◌==◌,
}
use jev_router.Common.Float.{Float, Number, ◌<=◌, ◌<<◌}
use jev_router.Common.Sorted.{sort_by, ascending}
use jev_router.Features.{Features}
use jev_router.Config.Conditions.{Value, label, number}
use jev_router.Config.Routes.{Route}
use jev_router.Config.Router.{Rule, Ruleset, QuestionType, Question, RouterConfig, LowConfidence}
use jev_router.Policy.Answers.{Answer, Answers, Probabilities, rule_uses_distribution}
use jev_router.Policy.Rules.{Pick, match_rules, rules_run}
use jev_router.Policy.Match.{Shift, Pressures, matches, match_run}

-- `(use.route, use.model, use.effort)`
same_route : Route → Route → Bool
same_route r s = opt_eq r.route s.route && opt_eq r.model s.model && opt_eq r.effort s.effort

one_route : List Route → Bool
one_route [] = true
one_route (r ∷ rs) = every (same_route r) rs

module _ ⦃f : Float⦄ where
  level_at : ℕ → List (ℕ × Number) → Option Number
  level_at n [] = none
  level_at n ((level, mass) ∷ ps) = if n == level then some mass else level_at n ps

  top_mass : Option Question → QuestionType → Probabilities → Option Number
  top_mass (some q) QuestionType.score (Probabilities.levels ps) =
      level_at (length q.criteria - 1) ps
  top_mass _ _ _ = none

  -- Mass on a score's highest rubric level, or nothing when unread.
  score_top_mass : RouterConfig → String → Answer → Option Number
  score_top_mass config qid a = top_mass (lookup qid config.questions) a.type a.probabilities

  abbrev heavy : {K : Type 0} → Number → K × Number → Bool
  heavy min_mass entry = not (entry.1 << min_mass)

  labels_of : QuestionType → Probabilities → Number → List Value
  labels_of QuestionType.score (Probabilities.levels ps) min_mass =
      map (λ (e : ℕ × Number). number (f.decimal e.0 0))
        (sort_by (ascending (λ (e : ℕ × Number). e.0)) (keep (heavy min_mass) ps))
  labels_of QuestionType.choice (Probabilities.labels ps) min_mass =
      map (λ (e : String × Number). label e.0) (keep (heavy min_mass) ps)
  labels_of _ _ min_mass = []

  -- The labels an answer put real probability on, as values to compare. A level is one digit, so
  -- the order of its key is its own; the labels of a choice stay in the order of the answer, as
  -- only the set of their routes is read.
  pub candidate_labels : Answer → Number → List Value
  candidate_labels a min_mass = labels_of a.type a.probabilities min_mass

  -- `alt[qid] = {**answer, kind: value}`
  pub substituted : Answers → String → Answer → Value → Answers
  substituted answers qid a v = (qid, record a { value = v }) ∷ answers

  pub route_with :
      RouterConfig → Ruleset → Answers → Features → Pressures → List String → Answers → Route
  route_with config rs answers features pressures running alt =
      (match_rules config rs alt features pressures running).0.use_route

  -- Would every label this answer is torn between pick the same route?
  pub action_equivalent :
      RouterConfig
      → Ruleset
      → Answers
      → Features
      → Pressures
      → String
      → Answer
      → LowConfidence
      → List String
      → Bool
  action_equivalent config rs answers features pressures qid a lc running =
      let values = candidate_labels a lc.equivalence_min_mass in
      leb 2 (length values)
      && one_route (
          map
            (λ v.
              route_with config rs answers features pressures running (substituted answers qid a v))
            values)

  pub data Check : Type 0 where
    absent no_confidence confident top_is_noise equivalent fired : Check

  is_noise : Option Number → LowConfidence → Bool
  is_noise none lc = false
  is_noise (some top) lc = top << lc.score_top_min_mass

  unsure :
      RouterConfig
      → Ruleset
      → Answers
      → Features
      → Pressures
      → List String
      → LowConfidence
      → String
      → Answer
      → Check
  unsure config rs answers features pressures running lc qid a =
      if contains lc.skip_when_top_is_noise qid && is_noise (score_top_mass config qid a) lc
      then top_is_noise
      else if lc.action_equivalent
          && action_equivalent config rs answers features pressures qid a lc running
      then equivalent
      else fired

  check_confidence : Option Number → LowConfidence → Check → Check
  check_confidence none lc rest = no_confidence
  check_confidence (some conf) lc rest = if lc.min_confidence <= conf then confident else rest

  check_answer :
      RouterConfig
      → Ruleset
      → Answers
      → Features
      → Pressures
      → List String
      → LowConfidence
      → String
      → Option Answer
      → Check
  check_answer config rs answers features pressures running lc qid none = absent
  check_answer config rs answers features pressures running lc qid (some a) =
      check_confidence a.confidence lc
        (unsure config rs answers features pressures running lc qid a)

  -- What the gate makes of one of its questions.
  pub gate_check :
      RouterConfig
      → Ruleset
      → Answers
      → Features
      → Pressures
      → List String
      → LowConfidence
      → String
      → Check
  gate_check config rs answers features pressures running lc qid =
      check_answer config rs answers features pressures running lc qid (lookup qid answers)

  is_fired : Check → Bool
  is_fired fired = true
  is_fired _ = false

  pub gate_fires :
      RouterConfig
      → Ruleset
      → Answers
      → Features
      → Pressures
      → List String
      → LowConfidence
      → List String
      → Bool
  gate_fires config rs answers features pressures running lc qids =
      any (λ qid. is_fired (gate_check config rs answers features pressures running lc qid)) qids

  low_confidence_pick : Route → Pick
  low_confidence_pick route = record {
    use_route = route;
    name = "low_confidence";
    protected = true;
  }

  gated :
      RouterConfig
      → Ruleset
      → Answers
      → Features
      → Pressures
      → List String
      → Option LowConfidence
      → Option Route
  gated config rs answers features pressures running none = none
  gated config rs answers features pressures running (some lc) =
      if gate_fires config rs answers features pressures running lc lc.questions
      then lc.use_route
      else none

  pick_gated : Option Route → Pick × List Shift → Pick × List Shift
  pick_gated (some route) rest = (low_confidence_pick route, [])
  pick_gated none rest = rest

  -- The low confidence gate, then the first matching rule, then the default.
  pub pick_route :
      RouterConfig → Ruleset → Answers → Features → Pressures → List String → Pick × List Shift
  pick_route config rs answers features pressures running =
      pick_gated (gated config rs answers features pressures running rs.low_confidence)
        (match_rules config rs answers features pressures running)

-- What a test opens to run the functions of this file.
unfoldable pub gate_run : Unit {0}
unfolding level_at top_mass score_top_mass labels_of candidate_labels same_route one_route
    substituted route_with action_equivalent is_noise unsure check_confidence check_answer
    gate_check is_fired gate_fires low_confidence_pick gated pick_gated pick_route contains any
    every keep lookup opt_eq sort_by rule_uses_distribution rules_run
gate_run = tt
