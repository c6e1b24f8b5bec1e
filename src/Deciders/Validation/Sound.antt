-- ===== src/Deciders/Validation/Sound.antt =====
-- What validation vouches for, and that a second validation changes nothing.
use jev_router.Common.{
  ◌≡◌, refl, sym, ap, ◌∙◌, subst, Bool, true, false, String, List, Option, none, some, Result, ok,
  err, ◌>>=◌, >>=-eq-ok, of_ok, if◌then◌else◌, Bool-cases, inl, inr,
}
use jev_router.Common.Float.{Float}
use jev_router.Config.Router.{Question, QuestionType, choice, score, noul}
use jev_router.Deciders.{
  Json, null, boolean, integer, real, text, array, object, Fields, no_fields, field, entry,
}
use jev_router.Deciders.Validation.{
  invalid_choice, invalid_number, invalid_confidence, kind_name, outcomes, is_text, fields_of,
  typed, checked_value, checked_confidence, are_probabilities, checked_vector, with_field, clean,
  validate_answer,
}

module _ {ℓ κ} {E : Type 0} {A : Type ℓ} {B : Type κ} where
  pub bind_ok :
      (call : Result E A) (next : A → Result E B) (value : A) (r : Result E B)
      → call ≡ ok value
      → next value ≡ r
      → (call >>= next) ≡ r
  bind_ok call next value r returned then_ = ap (λ c. c >>= next) returned ∙ then_

pub ok_if {ℓ} :
    {A : Type ℓ} {E : Type 0} (b : Bool) (v w : A) (e : E)
    → (if b then ok v else err e) ≡ ok w
    → (b ≡ true) × (v ≡ w)
ok_if true v w e h = (refl, of_ok h)
ok_if false v w e h = cc

-- A question of a kind
abbrev pub of_kind : QuestionType → List String → Question
of_kind kind criteria = record { type = kind; criteria = criteria }

module _ ⦃f : Float⦄ where
  -- A check that succeeds gives back what it was given.
  checked_value-same :
      (kind : QuestionType) (criteria : List String) (o : Option Json) (v : Json)
      → checked_value (of_kind kind criteria) o ≡ ok v
      → o ≡ some v
  unfolding checked_value
  checked_value-same choice criteria none v h = cc
  checked_value-same score criteria none v h = cc
  checked_value-same noul criteria none v h = cc
  checked_value-same choice criteria (some w) v h = ap some (ok_if _ w v invalid_choice h).1
  checked_value-same score criteria (some w) v h = ap some (ok_if _ w v invalid_number h).1
  checked_value-same noul criteria (some w) v h = ap some (ok_if _ w v invalid_number h).1

  checked_confidence-again :
      (kind : QuestionType) (o c : Option Json)
      → checked_confidence kind o ≡ ok c
      → checked_confidence kind c ≡ ok c
  unfolding checked_confidence
  checked_confidence-again noul o c h = h
  checked_confidence-again choice o c h =
      subst (λ x. checked_confidence choice x ≡ ok c) (ok_if _ o c invalid_confidence h).1 h
  checked_confidence-again score o c h =
      subst (λ x. checked_confidence score x ≡ ok c) (ok_if _ o c invalid_confidence h).1 h

  checked_vector-same :
      (question : Question) (o p : Option Json) → checked_vector question o ≡ ok p → o ≡ p
  unfolding checked_vector
  checked_vector-same question none p h = of_ok h
  checked_vector-same question (some null) p h = cc
  checked_vector-same question (some (boolean b)) p h = cc
  checked_vector-same question (some (integer i)) p h = cc
  checked_vector-same question (some (real x)) p h = cc
  checked_vector-same question (some (text t)) p h = cc
  checked_vector-same question (some (array xs)) p h = cc
  checked_vector-same question (some (object fields)) p h =
      elim (Bool-cases (are_probabilities (outcomes question) fields)) [
        | inl good ↦ (ok_if _ (some (object fields)) p _ (rw good at h)).1
        | inr bad ↦ cc (rw bad at h)
      ]

  -- The fields that a clean answer keeps are found in it.
  abbrev tail_of : Option Json → Option Json → Fields
  tail_of confidence probabilities =
      with_field "confidence" confidence (with_field "probabilities" probabilities no_fields)

  entry-tail_of :
      (c p : Option Json)
      → (entry (tail_of c p) "confidence" ≡ c) × (entry (tail_of c p) "probabilities" ≡ p)
  unfolding entry with_field
  entry-tail_of none none = (refl, refl)
  entry-tail_of none (some p) = (refl, refl)
  entry-tail_of (some c) none = (refl, refl)
  entry-tail_of (some c) (some p) = (refl, refl)

  abbrev kept : QuestionType → Json → Option Json → Option Json → Fields
  kept kind value confidence probabilities =
      field "type" (text (kind_name kind))
        (field (kind_name kind) value (tail_of confidence probabilities))

  typed-kept :
      (kind : QuestionType) (criteria : List String) (v : Json) (c p : Option Json)
      → typed (of_kind kind criteria) (some (kept kind v c p)) ≡ ok (kept kind v c p)
  unfolding typed is_text entry
  typed-kept choice criteria v c p = refl
  typed-kept score criteria v c p = refl
  typed-kept noul criteria v c p = refl

  entry-kept :
      (kind : QuestionType) (v : Json) (c p : Option Json)
      → (entry (kept kind v c p) (kind_name kind) ≡ some v)
        × (entry (kept kind v c p) "confidence" ≡ c)
        × (entry (kept kind v c p) "probabilities" ≡ p)
  unfolding entry
  entry-kept choice v c p = (refl, (entry-tail_of c p).0, (entry-tail_of c p).1)
  entry-kept score v c p = (refl, (entry-tail_of c p).0, (entry-tail_of c p).1)
  entry-kept noul v c p = (refl, (entry-tail_of c p).0, (entry-tail_of c p).1)

  validate_answer-clean :
      (question : Question) (v : Json) (c p : Option Json)
      → checked_value question (some v) ≡ ok v
      → checked_confidence question.type c ≡ ok c
      → checked_vector question p ≡ ok p
      → validate_answer (clean question.type v c p) question ≡ ok (clean question.type v c p)
  unfolding validate_answer clean fields_of
  validate_answer-clean question v c p value_ok confidence_ok vector_ok =
      let (at_kind, at_confidence, at_probabilities) = entry-kept question.type v c p in
      bind_ok _ _ (kept question.type v c p) _ (typed-kept question.type question.criteria v c p) (
        bind_ok _ _ v _ (ap (checked_value question) at_kind ∙ value_ok) (
          bind_ok _ _ c _ (ap (checked_confidence question.type) at_confidence ∙ confidence_ok)
            (bind_ok _ _ p _ (ap (checked_vector question) at_probabilities ∙ vector_ok) refl)))

  -- What validation found, and what it made of it.
  pub record Passed (question : Question) (c : Json) : Type 0 where
    pub value : Json
    pub confidence : Option Json
    pub probabilities : Option Json
    pub is_clean : c ≡ clean question.type value confidence probabilities
    pub value_ok : checked_value question (some value) ≡ ok value
    pub confidence_ok : checked_confidence question.type confidence ≡ ok confidence
    pub vector_ok : checked_vector question probabilities ≡ ok probabilities

  pub validate_answer-Passed :
      (answer : Json) (question : Question) (c : Json)
      → validate_answer answer question ≡ ok c
      → Passed question c
  unfolding validate_answer
  validate_answer-Passed answer question c h =
      let (fields, _, h₁) = >>=-eq-ok (typed question (fields_of answer)) _ h in
      let (value, value_found, h₂) =
        >>=-eq-ok (checked_value question (entry fields (kind_name question.type))) _ h₁ in
      let (confidence, confidence_found, h₃) =
        >>=-eq-ok (checked_confidence question.type (entry fields "confidence")) _ h₂ in
      let (probabilities, vector_found, h₄) =
        >>=-eq-ok (checked_vector question (entry fields "probabilities")) _ h₃ in
      record {
        value = value;
        confidence = confidence;
        probabilities = probabilities;
        is_clean = sym (of_ok h₄);
        value_ok =
            subst (λ o. checked_value question o ≡ ok value)
              (checked_value-same question.type question.criteria
                (entry fields (kind_name question.type)) value value_found)
              value_found;
        confidence_ok =
            checked_confidence-again question.type (entry fields "confidence") confidence
              confidence_found;
        vector_ok =
            subst (λ o. checked_vector question o ≡ ok probabilities)
              (checked_vector-same question (entry fields "probabilities") probabilities
                vector_found)
              vector_found;
      }

  -- A validated answer passes validation again and is left as it is.
  pub validate_answer-again :
      (answer : Json) (question : Question) (c : Json)
      → validate_answer answer question ≡ ok c
      → validate_answer c question ≡ ok c
  validate_answer-again answer question c h =
      let p = validate_answer-Passed answer question c h in
      subst (λ x. validate_answer x question ≡ ok x) (sym p.is_clean)
        (validate_answer-clean question p.value p.confidence p.probabilities p.value_ok
          p.confidence_ok p.vector_ok)
