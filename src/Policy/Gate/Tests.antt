-- ===== src/Policy/Gate/Tests.antt =====
-- The rules and the gate on answers of the small router, and their theorems at them.
use mathlib.Core.List.{Memᴰ}
use jev_router.Common.{
  ℕ, ◌+◌, ◌*◌, ◌/◌, ◌-◌, ◌≤◌, ◌≡◌, ◌⊎◌, refl, true, [], ◌∷◌, some, arith, leb→le, le→leb, ltb→lt,
}
use jev_router.Config.Conditions.{number}
use jev_router.Config.Router.{Rule, QuestionType, LowConfidence}
use jev_router.Fixtures.{fixed}
use jev_router.Fixtures.Pool.{config, rules, hard_rule, request, use_model}
use jev_router.Policy.Answers.{Answer, Answers, Probabilities}
use jev_router.Policy.Match.{Pressures, matches}
use jev_router.Policy.Match.Shifts.{ShiftLaws, matches-calm}
use jev_router.Policy.Rules.{match_rules, first_rule, default_pick, rule_pick}
use jev_router.Policy.Gate.{gate_run, substituted, route_with}
use jev_router.Policy.Rules.Fires.{Fires, NoneFires, match_rules-cases}
use jev_router.Policy.Rules.Pressure.{AtOrBefore, first_rule-AtOrBefore}
use jev_router.Policy.Gate.Equivalence.{Alike, action_equivalent-Alike}

laws : ShiftLaws
laws = record {
  finite = λ a. true;
  finite_zero = refl;
  zero_one = refl;
  zero_zero = refl;
  lt-le = λ a b h. le→leb a b (omega (arith, ltb→lt a b h));
  mul_zero =
      λ a h. (le→leb (a * 0 / 10000) 0 (omega arith), le→leb 0 (a * 0 / 10000) (omega arith));
  add_mul = λ a b x v ha hb h. le→leb x v (omega (arith, leb→le (x + a * b / 10000) v h));
  sub_mul = λ a b x v ha hb h. le→leb v x (omega (arith, leb→le v (x - a * b / 10000) h));
}

abbrev scored : ℕ → Answers
scored difficulty =
    (
      "difficulty",
      record {
        type = QuestionType.score;
        value = number difficulty;
        confidence = some 9000;
        probabilities = Probabilities.levels ((1, 5000) ∷ (2, 5000) ∷ []);
      },
    )
    ∷ []

abbrev busy : Pressures
busy = ("p", 4000) ∷ []

-- A score of 2.1 passes the threshold of 1.8, and of 2.0 under pressure.
hard_under_pressure : (first_rule rules.rules (scored 21000) request busy []).0 ≡ some hard_rule
unfolding gate_run
hard_under_pressure = refl

-- A score of 1.9 does not: the shift is recorded, and the default is used.
easy_under_pressure :
    (match_rules config rules (scored 19000) request busy []).0.use_route ≡ use_model "fast" "low"
unfolding gate_run
easy_under_pressure = refl

matches-calm_example : (matches hard_rule.when (scored 21000) request [] "hard").0 ≡ true
unfolding gate_run laws
matches-calm_example =
    matches-calm laws hard_rule.when (scored 21000) request busy "hard" (refl, tt) refl

match_rules-cases_example :
    (((match_rules config rules (scored 21000) request busy []).0 ≡ default_pick config rules)
      × NoneFires (scored 21000) request [] busy rules.rules)
    ⊎ ((r : Rule) × ((match_rules config rules (scored 21000) request busy []).0 ≡ rule_pick r)
        × Fires (scored 21000) request [] busy rules.rules r)
match_rules-cases_example = match_rules-cases (scored 21000) request [] config rules busy

first_rule-AtOrBefore_example : AtOrBefore (scored 21000) request [] rules.rules hard_rule
unfolding gate_run laws
first_rule-AtOrBefore_example =
    first_rule-AtOrBefore (scored 21000) request [] laws busy rules.rules hard_rule ((refl, tt), tt)
      refl

-- Levels two and three both go to the strong route.
abbrev torn : Answer
torn = record {
  type = QuestionType.score;
  value = number 25000;
  confidence = some 3000;
  probabilities = Probabilities.levels ((1, 500) ∷ (2, 4500) ∷ (3, 5000) ∷ []);
}

abbrev gate : LowConfidence
gate = record {
  min_confidence = 6000;
  questions = "difficulty" ∷ [];
  use_route = some (use_model "big" "high");
  action_equivalent = true;
  equivalence_min_mass = 1000;
  skip_when_top_is_noise = [];
  score_top_min_mass = 500;
}

action_equivalent-Alike_example :
    (2 ≤ 2)
    × Alike
        (route_with config rules [] request busy []
          (substituted [] "difficulty" torn (number 20000)))
        (route_with config rules [] request busy []
          (substituted [] "difficulty" torn (number 30000)))
unfolding gate_run
action_equivalent-Alike_example =
    action_equivalent-Alike config rules [] request busy "difficulty" torn gate [] (number 20000)
      (number 30000) refl (Memᴰ.head refl) (Memᴰ.tail (Memᴰ.head refl))
