-- ===== src/Config/Conditions.antt =====
-- A rule's `when:` block (src/jev_router/config.py, and the operators of policy.py): a key of
-- FEATURE_CONDITIONS is a constructor, any other key is a question with its comparisons.
use jev_router.Common.{ℕ, Bool, String, List, Option}
use jev_router.Common.Float.{Float, Number}

pub data FeatureCond : Type 0 where
  has_tools has_images has_code stream : Bool → FeatureCond
  est_tokens_gte est_tokens_lte : ℕ → FeatureCond
  message_count_gte message_count_lte : ℕ → FeatureCond
  max_tokens_gte : ℕ → FeatureCond
  client : String → FeatureCond
  client_in languages_include tool_names_include : List String → FeatureCond

module _ ⦃f : Float⦄ where
  -- What an answer holds: the label of a choice, or the number of a score or a noul.
  pub data Value : Type 0 where
    label : String → Value
    number : Number → Value

  -- The comparisons of one answer; `other` is a key that no comparison reads.
  pub data Op : Type 0 where
    is_in not_in : List Value → Op
    eq : Value → Op
    gte lte conf_gte : Number → Op
    p_hard_gte p_hard_lte p_nontrivial_gte p_nontrivial_lte : Number → Op
    other : String → Op

  -- `shift_with` and `max_shift` modify the comparisons beside them.
  pub record AnswerCond : Type 0 where
    pub ops : List Op
    pub shift_with : Option String
    pub max_shift : Option Number

  pub data Condition : Type 0 where
    feature : FeatureCond → Condition
    answer : String → AnswerCond → Condition
