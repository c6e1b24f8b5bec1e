-- ===== src/Deciders/Validation/Replies/Tests.antt =====
-- Replies that are validated, and the theorems at them.
use jev_router.Common.{◌≡◌, refl, [], ◌∷◌, some, ok, err, contains, every, ◌↔◌}
use jev_router.Common.Sorted.{sort_by}
use jev_router.Common.Int.{pos}
use jev_router.Fixtures.{fixed}
use jev_router.Config.Router.{Question, score}
use jev_router.Deciders.{Json, integer, real, text, object, Fields, no_fields, field, entry}
use jev_router.Deciders.Validation.{
  decimal_text, outcomes, maximum, is_number, are_probabilities, is_complete, clean,
  validate_answer, invalid_number,
}
use jev_router.Deciders.Validation.Sound.{validate_answer-again}
use jev_router.Deciders.Validation.Vouched.{Vouched, validate_answer-Vouched}
use jev_router.Deciders.Validation.Replies.{
  Questions, Answered, envelope, validate_each, usage_of, validate_response, shadow_each,
  validate_shadow, validate_response-Answered, validate_shadow-agrees,
}

abbrev difficulty : Question
difficulty = record { type = score; criteria = "easy" ∷ "hard" ∷ "harder" ∷ [] }

abbrev questions : Questions
questions = ("difficulty", difficulty) ∷ []

-- A mean of 1.5 with its vector, and a field that nobody asked for.
abbrev answer : Json
answer = object (
    field "type" (text "score") (
      field "score" (real 15000) (
        field "confidence" (integer (pos 1)) (
          field "probabilities"
            (object (field "0" (real 0) (field "1" (real 5000) (field "2" (real 5000) no_fields))))
            (field "provider_note" (text "x") no_fields)))))

abbrev answers : Fields
answers = field "difficulty" answer (field "shadow" (text "?") no_fields)

abbrev reply : Json
reply = object (
    field "answers" (object answers)
      (field "usage" (object (field "input_tokens" (integer (pos 12)) no_fields)) no_fields))

unfoldable replies_run : Unit {0}
unfolding entry outcomes maximum is_number are_probabilities is_complete clean validate_answer
    envelope validate_each usage_of validate_response shadow_each validate_shadow sort_by contains
    every
replies_run = tt

abbrev cleaned : Json
cleaned =
    clean score (real 15000) (some (integer (pos 1)))
      (some (object (field "0" (real 0) (field "1" (real 5000) (field "2" (real 5000) no_fields)))))

ten_names_and_more : decimal_text 10 10 ≡ "10"
unfolding decimal_text
ten_names_and_more = refl

levels_are_counted_from_0 : outcomes difficulty ≡ "0" ∷ "1" ∷ "2" ∷ []
unfolding outcomes
levels_are_counted_from_0 = refl

a_mean_beyond_the_levels_is_refused :
    validate_answer
      (object (
        field "type"
          (text "score")
          (field "score" (real 20001) (field "confidence" (integer (pos 1)) no_fields))))
      difficulty
    ≡ err invalid_number
unfolding replies_run
a_mean_beyond_the_levels_is_refused = refl

a_broken_envelope_fails_every_shadow :
    validate_shadow (text "?") (("b", difficulty) ∷ ("a", difficulty) ∷ []) ≡ ([], "a" ∷ "b" ∷ [])
unfolding replies_run
a_broken_envelope_fails_every_shadow = refl

validate_answer-again_example : validate_answer cleaned difficulty ≡ ok cleaned
unfolding replies_run
validate_answer-again_example = validate_answer-again answer difficulty cleaned refl

validate_answer-Vouched_example : Vouched difficulty cleaned
unfolding replies_run
validate_answer-Vouched_example = validate_answer-Vouched answer difficulty cleaned refl

validate_response-Answered_example : Answered questions (("difficulty", cleaned) ∷ [])
unfolding replies_run
validate_response-Answered_example =
    validate_response-Answered reply questions (("difficulty", cleaned) ∷ [])
      (some (integer (pos 12))) refl

validate_shadow-agrees_example :
    validate_shadow reply questions ≡ (("difficulty", cleaned) ∷ [], [])
    ↔ validate_each answers questions ≡ ok (("difficulty", cleaned) ∷ [])
unfolding replies_run
validate_shadow-agrees_example =
    validate_shadow-agrees reply answers questions (("difficulty", cleaned) ∷ []) refl
