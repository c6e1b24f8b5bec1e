-- ===== src/Policy/Select/Tests.antt =====
-- Selections of the small router, and their theorems at them.
use jev_router.Common.{◌≡◌, refl, Bool, true, false, String, [], ◌∷◌, Option, none, some, ok, err}
use jev_router.Config.Conditions.{number}
use jev_router.Config.Lanes.{allows}
use jev_router.Config.Router.{QuestionType}
use jev_router.Fixtures.{fixed}
use jev_router.Fixtures.Pool.{config, strict_alias, request, code_lane}
use jev_router.Fixtures.Levels.{named}
use jev_router.Policy.Eligible.{over_window}
use jev_router.Policy.Select.{excluded}
use jev_router.Policy.Failures.{Routed}
use jev_router.Policy.Answers.{Answers, Probabilities}
use jev_router.Policy.Match.{Pressures}
use jev_router.Policy.Select.{Selection, select, select_run, pair_of}
use jev_router.Policy.Select.Qualified.{select-qualified}
use jev_router.Policy.Select.Sendable.{Sendable, select-Sendable}

abbrev scored : Answers
scored =
    (
      "difficulty",
      record {
        type = QuestionType.score;
        value = number 21000;
        confidence = some 9000;
        probabilities = Probabilities.absent;
      },
    )
    ∷ []

abbrev busy : Pressures
busy = ("p", 9000) ∷ []

abbrev summary : Routed Selection → Option (String × Option String × String × Bool)
summary (ok s) = some ((pair_of s.evaluation).0, (pair_of s.evaluation).1, s.lane, s.qualified)
summary (err why) = none

-- Under pressure the strict alias keeps the hard rule, and goes to the equivalent on `q`.
strict_example :
    summary (select config strict_alias scored request busy)
    ≡ some ("wide", some "high", "code", true)
unfolding select_run
strict_example = refl

abbrev chosen_wide : Selection
chosen_wide = record {
  evaluation = record {
    result = record {
      model = "wide";
      effort = some "high";
      rule = "hard";
      route = some "strong";
      plan =
          record { model = "wide"; effort = some "high"; provider = "q"; equivalent = true }
          ∷ record { model = "big"; effort = some "high"; provider = "p"; equivalent = false }
          ∷ [];
      reordered = true;
      protected = false;
    };
    shifts = [];
    pressure_changed_the_outcome = true;
    experiments = [];
  };
  lane = "code";
  qualification_ref = "r2";
  counterfactual = ("big", some "high");
  exclusions = excluded "fast" over_window ∷ [];
  qualified = true;
}

select-qualified_example : allows code_lane ("wide", some "high") ≡ true
unfolding select_run
select-qualified_example =
    select-qualified config strict_alias request scored busy chosen_wide code_lane refl refl refl

select-Sendable_example : Sendable config strict_alias request chosen_wide.evaluation
unfolding select_run
select-Sendable_example =
    select-Sendable config strict_alias request scored busy chosen_wide named refl
