-- ===== src/Deciders/Validation.antt =====
-- The Jev fields used by routing, validated (src/jev_router/deciders/validation.py). An exception's
-- text is a constructor.
pub mod Sound
pub mod Vouched
pub mod Replies
use Prim.Native.Nat.{◌%◌}
use Prim.Native.String.{◌++◌ as ◌+++◌}
use jev_router.Common.{
  ℕ, zero, suc, ◌/◌, ◌++◌, ltb, Bool, true, false, not, ◌&&◌, ◌||◌, String, str_eq, List, [], ◌∷◌,
  map, Option, none, some, Result, ok, err, ◌>>=◌, length, leb, get_elem?, contains, every,
  if◌then◌else◌,
}
use jev_router.Common.Int.{ℤ, pos, negsuc, sub_ℕ}
use jev_router.Common.Float.{Float, Number}
use jev_router.Config.Router.{Question, QuestionType, choice, score, noul}
use jev_router.Deciders.{
  Json, null, boolean, integer, real, text, array, object, Fields, no_fields, field, entry,
  field_names, field_values,
}

-- The ValueErrors
pub data Refusal : Type 0 where
  mistyped invalid_choice invalid_number invalid_confidence : Refusal
  invalid_probabilities incomplete_distribution : Refusal
  invalid_envelope invalid_usage invalid_token_count : Refusal

abbrev pub kind_name : QuestionType → String
kind_name choice = "choice"
kind_name score = "score"
kind_name noul = "noul"

abbrev pub is_noul : QuestionType → Bool
is_noul noul = true
is_noul _ = false

abbrev digits : List String
digits = "0" ∷ "1" ∷ "2" ∷ "3" ∷ "4" ∷ "5" ∷ "6" ∷ "7" ∷ "8" ∷ "9" ∷ []

digit : ℕ → String
digit n = elim (get_elem? digits n) [ none ↦ "" | some d ↦ d ]

-- `str(n)`, where the fuel is at least the number of digits after the first
unfoldable pub decimal_text : ℕ → ℕ → String
unfolding digit
decimal_text zero n = digit (n % 10)
decimal_text (suc fuel) n = elim (ltb n 10) [
  | true ↦ digit n
  | false ↦ decimal_text fuel (n / 10) +++ digit (n % 10)
]

-- `str(i) for i in range(n)`
unfoldable pub level_names : ℕ → List String
unfolding decimal_text
level_names zero = []
level_names (suc n) = level_names n ++ decimal_text n n ∷ []

unfoldable pub outcomes : Question → List String
unfolding level_names
outcomes question = elim question.type [
  | choice ↦ question.criteria
  | _ ↦ level_names (length question.criteria)
]

unfoldable pub maximum : Question → ℤ
maximum question = elim question.type [ score ↦ sub_ℕ (length question.criteria) 1 | _ ↦ pos 1 ]

module _ ⦃f : Float⦄ where
  -- `type(value) in (int, float) and 0 <= value <= maximum and math.isfinite(value)`
  unfoldable pub is_number : Json → ℤ → Bool
  is_number (integer (pos n)) (pos m) = leb n m
  is_number (real x) (pos m) = f.le (f.decimal 0 0) x && (f.le x (f.decimal m 0) && f.is_finite x)
  is_number _ _ = false

  is_number? : Option Json → ℤ → Bool
  unfolding is_number
  is_number? none m = false
  is_number? (some v) m = is_number v m

  -- A validated number as a float
  abbrev pub as_float : Json → Number
  as_float (integer (pos n)) = f.decimal n 0
  as_float (real x) = x
  as_float _ = f.decimal 0 0

  is_text : Option Json → String → Bool
  is_text (some (text t)) s = str_eq t s
  is_text _ s = false

  fields_of : Json → Option Fields
  fields_of (object fields) = some fields
  fields_of _ = none

  -- The answer as an object that says it is of the question's kind.
  typed : Question → Option Fields → Result Refusal Fields
  unfolding is_text entry
  typed question none = err mistyped
  typed question (some fields) =
      if is_text (entry fields "type") (kind_name question.type) then ok fields else err mistyped

  is_label : List String → Option Json → Bool
  unfolding contains
  is_label criteria (some (text t)) = contains criteria t
  is_label criteria _ = false

  pub checked_value : Question → Option Json → Result Refusal Json
  unfolding is_label is_number? maximum
  checked_value question none = elim question.type [
    | choice ↦ err invalid_choice
    | _ ↦ err invalid_number
  ]
  checked_value question (some value) = elim question.type [
    | choice ↦ if is_label question.criteria (some value) then ok value else err invalid_choice
    | _ ↦ if is_number? (some value) (maximum question) then ok value else err invalid_number
  ]

  pub checked_confidence : QuestionType → Option Json → Result Refusal (Option Json)
  unfolding is_number?
  checked_confidence kind confidence =
      if is_noul kind
      then ok none
      else if is_number? confidence (pos 1)
      then ok confidence
      else err invalid_confidence

  -- Every entry is a known outcome with a probability.
  unfoldable pub are_probabilities : List String → Fields → Bool
  unfolding contains is_number
  are_probabilities names no_fields = true
  are_probabilities names (field at value rest) =
      (contains names at && is_number value (pos 1)) && are_probabilities names rest

  no_entries : Fields → Bool
  no_entries no_fields = true
  no_entries (field _ _ _) = false

  -- All outcomes, and a sum that is 1 up to 0.01
  unfoldable pub is_complete : List String → Fields → Bool
  unfolding every contains
  is_complete names fields =
      (every (contains names) (field_names fields) && every (contains (field_names fields)) names)
      && f.is_close (f.sum (map as_float (field_values fields))) (f.decimal 1 0) (f.decimal 1 2)

  pub checked_vector : Question → Option Json → Result Refusal (Option Json)
  unfolding are_probabilities outcomes no_entries is_complete
  checked_vector question none = ok none
  checked_vector question (some (object fields)) =
      if are_probabilities (outcomes question) fields
      then if no_entries fields || is_complete (outcomes question) fields
        then ok (some (object fields))
        else err incomplete_distribution
      else err invalid_probabilities
  checked_vector question (some _) = err invalid_probabilities

  with_field : String → Option Json → Fields → Fields
  with_field name none rest = rest
  with_field name (some v) rest = field name v rest

  -- Do not retain arbitrary provider fields.
  unfoldable pub clean : QuestionType → Json → Option Json → Option Json → Json
  unfolding with_field
  clean kind value confidence probabilities = object (
      field "type" (text (kind_name kind)) (
        field (kind_name kind) value (
          with_field "confidence" confidence (with_field "probabilities" probabilities no_fields))))

  -- One answer, checked and stripped to the fields routing may read.
  unfoldable pub validate_answer : Json → Question → Result Refusal Json
  unfolding fields_of typed entry checked_value checked_confidence checked_vector clean
  validate_answer answer question = typed question (fields_of answer) >>= λ fields.
      checked_value question (entry fields (kind_name question.type)) >>= λ value.
      checked_confidence question.type (entry fields "confidence") >>= λ confidence.
      checked_vector question (entry fields "probabilities") >>= λ probabilities.
      ok (clean question.type value confidence probabilities)
