-- ===== src/Policy/Match.antt =====
-- Matching one rule (`matches` of src/jev_router/policy.py). A comparison gives its result and the
-- shifts that it recorded. Config load leaves a choice to `in`, `not_in`, `eq` and `conf_gte`, and
-- a vector to a score; a comparison that Python would refuse with a TypeError reads as false.
pub mod Shifts
use jev_router.Common.{
  same_bool, ℕ, Bool, true, false, not, ◌&&◌, ◌||◌, String, str_eq, List, [], ◌∷◌, ◌++◌, Option,
  none, some, any, contains, leb, lookup, if◌then◌else◌,
}
use jev_router.Common.Float.{Float, Number, ◌<=◌, ◌<<◌}
use jev_router.Features.{Features}
use jev_router.Config.Conditions.{
  FeatureCond, has_tools, has_images, has_code, stream, est_tokens_gte, est_tokens_lte,
  message_count_gte, message_count_lte, max_tokens_gte, client, client_in, languages_include,
  tool_names_include, Value, label, number, Op, is_in, not_in, eq, gte, lte, conf_gte, p_hard_gte,
  p_hard_lte, p_nontrivial_gte, p_nontrivial_lte, other, AnswerCond, Condition, feature, answer,
}
use jev_router.Policy.Answers.{Answer, Answers, p_hard, p_nontrivial}

-- FEATURE_CONDITIONS
unfoldable pub feature_holds : Features → FeatureCond → Bool
unfolding same_bool contains any
feature_holds r (has_tools v) = same_bool r.has_tools v
feature_holds r (has_images v) = same_bool r.has_images v
feature_holds r (has_code v) = same_bool r.has_code v
feature_holds r (stream v) = same_bool r.stream v
feature_holds r (est_tokens_gte v) = leb v r.est_tokens
feature_holds r (est_tokens_lte v) = leb r.est_tokens v
feature_holds r (message_count_gte v) = leb v r.message_count
feature_holds r (message_count_lte v) = leb r.message_count v
feature_holds r (max_tokens_gte v) = leb v r.max_tokens
feature_holds r (client v) = str_eq r.client v
feature_holds r (client_in vs) = contains vs r.client
feature_holds r (languages_include vs) = any (contains vs) r.languages
feature_holds r (tool_names_include vs) = any (contains vs) r.tool_names

-- The comparisons that a shift moves.
pub data ShiftOp : Type 0 where
  shifted_gte shifted_lte shifted_conf_gte : ShiftOp

module _ ⦃f : Float⦄ where
  -- A threshold that quota pressure moved, and by how much.
  pub record Shift : Type 0 where
    pub rule : String
    pub question : String
    pub op : ShiftOp
    pub base : Number
    pub effective : Number
    pub provider : String
    pub pressure : Number

  -- Pressure by provider.
  abbrev pub Pressures : Type 0
  Pressures = List (String × Number)

  abbrev pub nought : Number
  nought = f.decimal 0 0

  -- `max(0.0, x)` and `min(1.0, x)`
  pub max_zero : Number → Number
  max_zero x = if nought << x then x else nought

  min_one : Number → Number
  min_one x = if x << f.decimal 1 0 then x else f.decimal 1 0

  abbrev or_nought : Option Number → Number
  or_nought none = nought
  or_nought (some x) = x

  -- How far pressure moves this condition's threshold: `max_shift` times the pressure, the
  -- provider and the pressure.
  pub record Amount : Type 0 where
    pub factor : Number
    pub provider : String
    pub pressure : Number

  amount_of : Option String → Option Number → Pressures → Amount
  amount_of (some provider) (some max_shift) pressures = record {
    factor = max_zero max_shift;
    provider = provider;
    pressure = max_zero (min_one (or_nought (lookup provider pressures)));
  }
  amount_of _ _ pressures = record { factor = nought; provider = ""; pressure = nought }

  pub shift_amount : AnswerCond → Pressures → Amount
  shift_amount cond pressures = amount_of cond.shift_with cond.max_shift pressures

  pub points : Amount → Number
  points a = f.mul a.factor a.pressure

  is_nought : Number → Bool
  is_nought x = (x <= nought) && (nought <= x)

  -- A shift only ever makes the rule harder to reach: up for `gte`, down for `lte`.
  effective : ShiftOp → Number → Number → Number
  effective ShiftOp.shifted_gte x p = f.add x p
  effective ShiftOp.shifted_conf_gte x p = f.add x p
  effective ShiftOp.shifted_lte x p = f.sub x p

  -- The operand that a comparison uses, and the shift that it records.
  moved : Amount → String → String → ShiftOp → Number → Number × List Shift
  moved a rule question op x = if is_nought (points a) then (x, []) else (
    effective op x (points a),
    record {
      rule = rule;
      question = question;
      op = op;
      base = x;
      effective = effective op x (points a);
      provider = a.provider;
      pressure = a.pressure;
    }
        ∷ [],
  )

  same_value : Value → Value → Bool
  same_value (label a) (label b) = str_eq a b
  same_value (number a) (number b) = (a <= b) && (b <= a)
  same_value _ _ = false

  at_least : Value → Number → Bool
  at_least (number v) x = x <= v
  at_least (label v) x = false

  at_most : Value → Number → Bool
  at_most (number v) x = v <= x
  at_most (label v) x = false

  mass_at_least : Option Number → Number → Bool
  mass_at_least none x = false
  mass_at_least (some m) x = x <= m

  mass_at_most : Option Number → Number → Bool
  mass_at_most none x = false
  mass_at_most (some m) x = m <= x

  at_least_moved : Value → Number × List Shift → Bool × List Shift
  at_least_moved v (x, seen) = (at_least v x, seen)

  at_most_moved : Value → Number × List Shift → Bool × List Shift
  at_most_moved v (x, seen) = (at_most v x, seen)

  -- `conf is not None and …`: without a confidence no threshold is moved.
  confidence_moved : Option Number → Number × List Shift → Bool × List Shift
  confidence_moved none moved_to = (false, [])
  confidence_moved (some conf) (x, seen) = (x <= conf, seen)

  -- One comparison of an answer: its result and the shift that it records.
  op_matches : Amount → String → String → Answer → Op → Bool × List Shift
  op_matches a rule question ans (is_in vs) = (any (same_value ans.value) vs, [])
  op_matches a rule question ans (not_in vs) = (not (any (same_value ans.value) vs), [])
  op_matches a rule question ans (eq v) = (same_value ans.value v, [])
  op_matches a rule question ans (gte x) =
      at_least_moved ans.value (moved a rule question ShiftOp.shifted_gte x)
  op_matches a rule question ans (lte x) =
      at_most_moved ans.value (moved a rule question ShiftOp.shifted_lte x)
  op_matches a rule question ans (conf_gte x) =
      confidence_moved ans.confidence (moved a rule question ShiftOp.shifted_conf_gte x)
  op_matches a rule question ans (p_hard_gte x) = (mass_at_least (p_hard ans) x, [])
  op_matches a rule question ans (p_hard_lte x) = (mass_at_most (p_hard ans) x, [])
  op_matches a rule question ans (p_nontrivial_gte x) = (mass_at_least (p_nontrivial ans) x, [])
  op_matches a rule question ans (p_nontrivial_lte x) = (mass_at_most (p_nontrivial ans) x, [])
  op_matches a rule question ans (other key) = (true, [])

  and_then : Bool × List Shift → Bool × List Shift → Bool × List Shift
  and_then (false, seen) rest = (false, seen)
  and_then (true, seen) (hit, more) = (hit, seen ++ more)

  -- The comparisons in order, up to the first that fails.
  ops_match : Amount → String → String → Answer → List Op → Bool × List Shift
  ops_match a rule question ans [] = (true, [])
  ops_match a rule question ans (op ∷ ops) =
      and_then (op_matches a rule question ans op) (ops_match a rule question ans ops)

  answer_matches : AnswerCond → Option Answer → Pressures → String → String → Bool × List Shift
  answer_matches cond none pressures rule question = (false, [])
  answer_matches cond (some ans) pressures rule question =
      ops_match (shift_amount cond pressures) rule question ans cond.ops

  condition_matches : Condition → Answers → Features → Pressures → String → Bool × List Shift
  condition_matches (feature c) answers features pressures rule = (feature_holds features c, [])
  condition_matches (answer question c) answers features pressures rule =
      answer_matches c (lookup question answers) pressures rule question

  -- Does a `when:` block hold, and which thresholds did pressure move on the way?
  pub matches : List Condition → Answers → Features → Pressures → String → Bool × List Shift
  matches [] answers features pressures rule = (true, [])
  matches (c ∷ cs) answers features pressures rule =
      and_then (condition_matches c answers features pressures rule)
        (matches cs answers features pressures rule)

-- What a test opens to run the functions of this file.
unfoldable pub match_run : Unit {0}
unfolding feature_holds max_zero min_one amount_of shift_amount points is_nought effective moved
    same_value at_least at_most mass_at_least mass_at_most at_least_moved at_most_moved
    confidence_moved op_matches and_then ops_match answer_matches condition_matches matches any
    lookup p_hard p_nontrivial
match_run = tt
