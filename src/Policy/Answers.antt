-- ===== src/Policy/Answers.antt =====
-- A validated Jev answer, and what routing reads of its distribution (src/jev_router/policy.py).
-- The validator keeps a probability vector whole or not at all; the key "3" of a score's vector is
-- level 3.
use jev_router.Common.{
  ℕ, Bool, true, false, String, List, [], ◌∷◌, map, Option, none, some, any, keep, leb,
}
use jev_router.Common.Float.{Float, Number}
use jev_router.Common.Sorted.{sort_by, ascending}
use jev_router.Config.Conditions.{Value, Op, Condition}
use jev_router.Config.Conditions.{
  p_hard_gte, p_hard_lte, p_nontrivial_gte, p_nontrivial_lte, feature, answer,
}
use jev_router.Config.Router.{Rule, Ruleset, QuestionType}

module _ ⦃f : Float⦄ where
  pub data Probabilities : Type 0 where
    absent : Probabilities
    levels : List (ℕ × Number) → Probabilities
    labels : List (String × Number) → Probabilities

  pub record Answer : Type 0 where
    pub type : QuestionType
    pub value : Value
    pub confidence : Option Number
    pub probabilities : Probabilities

  -- `answers`, by question
  abbrev pub Answers : Type 0
  Answers = List (String × Answer)

  abbrev level_of : ℕ × Number → ℕ
  level_of entry = entry.0

  last_mass : List (ℕ × Number) → Option Number
  last_mass [] = none
  last_mass ((level, mass) ∷ []) = some mass
  last_mass (_ ∷ next ∷ rest) = last_mass (next ∷ rest)

  top_of : Probabilities → Option Number
  unfolding last_mass sort_by
  top_of (Probabilities.levels ps) = last_mass (sort_by (ascending level_of) ps)
  top_of _ = none

  -- Mass on the top level of the rubric, or nothing when there is no vector.
  unfoldable pub p_hard : Answer → Option Number
  unfolding top_of
  p_hard a = top_of a.probabilities

  masses_from_two : List (ℕ × Number) → List Number
  unfolding sort_by keep
  masses_from_two ps =
      map (λ (entry : ℕ × Number). entry.1)
        (sort_by (ascending level_of) (keep (λ (entry : ℕ × Number). leb 2 entry.0) ps))

  upper_of : Probabilities → Option Number
  unfolding masses_from_two
  upper_of (Probabilities.levels (p ∷ ps)) = some (f.sum (masses_from_two (p ∷ ps)))
  upper_of _ = none

  -- Mass at level two and above.
  unfoldable pub p_nontrivial : Answer → Option Number
  unfolding upper_of
  p_nontrivial a = upper_of a.probabilities

  is_distribution_op : Op → Bool
  is_distribution_op (p_hard_gte x) = true
  is_distribution_op (p_hard_lte x) = true
  is_distribution_op (p_nontrivial_gte x) = true
  is_distribution_op (p_nontrivial_lte x) = true
  is_distribution_op _ = false

  uses_distribution : Condition → Bool
  unfolding is_distribution_op any
  uses_distribution (feature c) = false
  uses_distribution (answer question c) = any is_distribution_op c.ops

  unfoldable pub rule_uses_distribution : Rule → Bool
  unfolding uses_distribution
  rule_uses_distribution rule = any uses_distribution rule.when

  -- The rules of this ruleset that read a distribution, in order.
  unfoldable pub experiment_rules : Ruleset → List String
  unfolding rule_uses_distribution keep
  experiment_rules rs = map (λ (r : Rule). r.name) (keep rule_uses_distribution rs.rules)
