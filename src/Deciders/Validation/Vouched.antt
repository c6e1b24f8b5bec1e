-- ===== src/Deciders/Validation/Vouched.antt =====
-- What a validated answer is: the types that routing may rely on.
use mathlib.Core.List.{Memᴰ}
use mathlib.Core.Bool.{true≢false}
use jev_router.Common.{
  ℕ, suc, ◌≤◌, ◌≡◌, refl, sym, ◌∙◌, subst, Bool, true, false, ◌&&◌, every, map, String, List, [],
  ◌∷◌, Option, none, some, ok, length, leb→le, contains, Bool-cases, inl, inr, Memᴰ-contains,
  and_left, and_right, arith,
}
use jev_router.Common.Int.{pos, negsuc, sub_ℕ}
use jev_router.Common.Float.{Float}
use jev_router.Config.Router.{Question, QuestionType, choice, score, noul}
use jev_router.Deciders.{
  Json, null, boolean, integer, real, text, array, object, Fields, no_fields, field, field_names,
  field_values,
}
use jev_router.Deciders.Validation.{
  invalid_choice, invalid_number, invalid_confidence, is_noul, outcomes, maximum, is_number,
  is_number?, is_label, checked_value, checked_confidence, are_probabilities, no_entries,
  is_complete, as_float, checked_vector, clean, validate_answer,
}
use jev_router.Deciders.Validation.Sound.{ok_if, of_kind, validate_answer-Passed}

every-Memᴰ :
    (p : String → Bool) (xs : List String) (x : String) → every p xs ≡ true → Memᴰ x xs → p x ≡ true
unfolding every
every-Memᴰ p [] x h m = elim m [ ]
every-Memᴰ p (y ∷ ys) x h (Memᴰ.head e) = rw e (and_left (p y) _ h)
every-Memᴰ p (y ∷ ys) x h (Memᴰ.tail m) = every-Memᴰ p ys x (and_right (p y) _ h) m

one_less : (n : ℕ) → sub_ℕ (suc n) 1 ≡ pos n
one_less n = ground arith

module _ ⦃f : Float⦄ where
  -- A number of Python between 0 and m, no NaN and no infinity
  pub InRange : Json → ℕ → Type 0
  InRange (integer (pos n)) m = n ≤ m
  InRange (real x) m =
      (f.le (f.decimal 0 0) x ≡ true) × (f.le x (f.decimal m 0) ≡ true) × (f.is_finite x ≡ true)
  InRange _ m = ⊥

  pub IsValue : QuestionType → List String → Json → Type 0
  unfolding InRange
  IsValue choice criteria (text t) = Memᴰ t criteria
  IsValue choice criteria _ = ⊥
  IsValue score criteria v = (m : ℕ) × (suc m ≡ length criteria) × InRange v m
  IsValue noul criteria v = InRange v 1

  pub AreProbabilities : List String → Fields → Type 0
  unfolding InRange
  AreProbabilities names no_fields = Unit
  AreProbabilities names (field at value rest) =
      (Memᴰ at names × InRange value 1) × AreProbabilities names rest

  -- Each outcome is there, and the sum is within 0.01 of 1.
  pub IsWhole : List String → Fields → Type 0
  IsWhole names fields =
      ((name : String) → Memᴰ name names → Memᴰ name (field_names fields))
      × (f.is_close (f.sum (map as_float (field_values fields))) (f.decimal 1 0) (f.decimal 1 2)
          ≡ true)

  -- No vector, an empty one, or probabilities of outcomes only, all of them, that sum to 1 up to
  -- 0.01.
  pub IsVector : List String → Option Json → Type 0
  unfolding AreProbabilities
  IsVector names none = Unit
  IsVector names (some (object no_fields)) = Unit
  IsVector names (some (object (field at value rest))) =
      AreProbabilities names (field at value rest) × IsWhole names (field at value rest)
  IsVector names (some _) = ⊥

  -- A clean answer with a value of the question's kind, a confidence where the kind has one, and
  -- a vector that is whole.
  pub record Vouched (question : Question) (c : Json) : Type 0 where
    pub value : Json
    pub confidence : Option Json
    pub probabilities : Option Json
    pub is_clean : c ≡ clean question.type value confidence probabilities
    pub of_kind_value : IsValue question.type question.criteria value
    pub sure : is_noul question.type ≡ false → (v : Json) × (confidence ≡ some v) × InRange v 1
    pub whole_vector : IsVector (outcomes question) probabilities

  is_number-InRange : (v : Json) (m : ℕ) → is_number v (pos m) ≡ true → InRange v m
  unfolding is_number InRange
  is_number-InRange null m h = cc
  is_number-InRange (boolean b) m h = cc
  is_number-InRange (integer (pos n)) m h = leb→le n m h
  is_number-InRange (integer (negsuc n)) m h = cc
  is_number-InRange (real x) m h =
      let rest = and_right (f.le (f.decimal 0 0) x) _ h in
      (
        and_left (f.le (f.decimal 0 0) x) _ h,
        and_left (f.le x (f.decimal m 0)) (f.is_finite x) rest,
        and_right (f.le x (f.decimal m 0)) (f.is_finite x) rest,
      )
  is_number-InRange (text t) m h = cc
  is_number-InRange (array xs) m h = cc
  is_number-InRange (object o) m h = cc

  below_nothing : (v : Json) (k : ℕ) → is_number v (negsuc k) ≡ false
  unfolding is_number
  below_nothing null k = refl
  below_nothing (boolean b) k = refl
  below_nothing (integer (pos n)) k = refl
  below_nothing (integer (negsuc n)) k = refl
  below_nothing (real x) k = refl
  below_nothing (text t) k = refl
  below_nothing (array xs) k = refl
  below_nothing (object o) k = refl

  levels-InRange :
      (criteria : List String) (v : Json)
      → is_number v (sub_ℕ (length criteria) 1) ≡ true
      → IsValue score criteria v
  unfolding IsValue
  levels-InRange [] v h = absurd (true≢false (sym h ∙ below_nothing v 0))
  levels-InRange (x ∷ xs) v h = (
    length xs,
    refl,
    is_number-InRange v (length xs) (subst (λ m. is_number v m ≡ true) (one_less (length xs)) h),
  )

  checked_value-IsValue :
      (kind : QuestionType) (criteria : List String) (v : Json)
      → checked_value (of_kind kind criteria) (some v) ≡ ok v
      → IsValue kind criteria v
  unfolding checked_value IsValue maximum is_number? is_label
  checked_value-IsValue choice criteria (text t) h =
      Memᴰ-contains criteria t (ok_if _ (text t) (text t) invalid_choice h).0
  checked_value-IsValue choice criteria null h = cc
  checked_value-IsValue choice criteria (boolean b) h = cc
  checked_value-IsValue choice criteria (integer i) h = cc
  checked_value-IsValue choice criteria (real x) h = cc
  checked_value-IsValue choice criteria (array xs) h = cc
  checked_value-IsValue choice criteria (object o) h = cc
  checked_value-IsValue score criteria v h =
      levels-InRange criteria v (ok_if _ v v invalid_number h).0
  checked_value-IsValue noul criteria v h = is_number-InRange v 1 (ok_if _ v v invalid_number h).0

  checked_confidence-sure :
      (kind : QuestionType) (c : Option Json)
      → checked_confidence kind c ≡ ok c
      → is_noul kind ≡ false
      → (v : Json) × (c ≡ some v) × InRange v 1
  unfolding checked_confidence is_number?
  checked_confidence-sure kind none h sure = cc (rw sure at h)
  checked_confidence-sure kind (some v) h sure = (
    v,
    refl,
    is_number-InRange v 1 (ok_if _ (some v) (some v) invalid_confidence (rw sure at h)).0,
  )

  are_probabilities-AreProbabilities :
      (names : List String) (fields : Fields)
      → are_probabilities names fields ≡ true
      → AreProbabilities names fields
  unfolding are_probabilities AreProbabilities
  are_probabilities-AreProbabilities names no_fields h = tt
  are_probabilities-AreProbabilities names (field at value rest) h =
      let here = and_left (contains names at && is_number value (pos 1)) _ h in
      (
        (
          Memᴰ-contains names at (and_left (contains names at) _ here),
          is_number-InRange value 1 (and_right (contains names at) _ here),
        ),
        are_probabilities-AreProbabilities names rest
            (and_right (contains names at && is_number value (pos 1)) _ h),
      )

  is_complete-IsWhole :
      (names : List String) (fields : Fields)
      → is_complete names fields ≡ true
      → IsWhole names fields
  unfolding is_complete IsWhole
  is_complete-IsWhole names fields h =
      let known = every (contains names) (field_names fields) in
      let there = every (contains (field_names fields)) names in
      (
        λ name member. Memᴰ-contains (field_names fields) name (
            every-Memᴰ (contains (field_names fields)) names name
              (and_right known there (and_left (known && there) _ h)) member),
        and_right (known && there) _ h,
      )

  checked_vector-IsVector :
      (question : Question) (p : Option Json)
      → checked_vector question p ≡ ok p
      → IsVector (outcomes question) p
  unfolding checked_vector IsVector no_entries
  checked_vector-IsVector question none h = tt
  checked_vector-IsVector question (some null) h = cc
  checked_vector-IsVector question (some (boolean b)) h = cc
  checked_vector-IsVector question (some (integer i)) h = cc
  checked_vector-IsVector question (some (real x)) h = cc
  checked_vector-IsVector question (some (text t)) h = cc
  checked_vector-IsVector question (some (array xs)) h = cc
  checked_vector-IsVector question (some (object no_fields)) h = tt
  checked_vector-IsVector question (some (object (field at value rest))) h =
      elim (Bool-cases (are_probabilities (outcomes question) (field at value rest))) [
        | inl good ↦ (
          are_probabilities-AreProbabilities (outcomes question) (field at value rest) good,
          is_complete-IsWhole (outcomes question) (field at value rest)
              (ok_if _ _ _ _ (rw good at h)).0,
        )
        | inr bad ↦ cc (rw bad at h)
      ]

  -- An answer that passes validation is an object of the question's type and of known fields only:
  -- a choice is one of the labels, a number lies between 0 and the last level (1 for a noul
  -- question) and is finite, a confidence is between 0 and 1 where the type has one, and a vector
  -- of probabilities is absent, empty, or has a probability between 0 and 1 for each outcome, none
  -- for anything else, and sums to 1 up to 0.01.
  pub validate_answer-Vouched :
      (answer : Json) (question : Question) (c : Json)
      → validate_answer answer question ≡ ok c
      → Vouched question c
  validate_answer-Vouched answer question c h =
      let p = validate_answer-Passed answer question c h in
      record {
        value = p.value;
        confidence = p.confidence;
        probabilities = p.probabilities;
        is_clean = p.is_clean;
        of_kind_value = checked_value-IsValue question.type question.criteria p.value p.value_ok;
        sure = checked_confidence-sure question.type p.confidence p.confidence_ok;
        whole_vector = checked_vector-IsVector question p.probabilities p.vector_ok;
      }
