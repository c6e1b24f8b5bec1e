-- ===== src/Deciders/Validation/Replies.antt =====
-- A whole reply (`validate_response` and `validate_shadow` of
-- src/jev_router/deciders/validation.py).
mod Tests
use Prim.Native.Nat.{Ordering}
use Prim.Native.String.{compare}
use mathlib.Core.List.{Memᴰ}
use jev_router.Common.Sorted.{sort_by}
use jev_router.Common.{
  ℕ, ◌≡◌, refl, sym, ap, ◌∙◌, subst, Bool, true, false, not, ◌&&◌, ◌||◌, String, str_eq, List, [],
  ◌∷◌, map, Option, none, some, Result, ok, err, ◌>>=◌, >>=-eq-ok, of_ok, ◌⊎◌, inl, inr,
  if◌then◌else◌, keys, lookup, All, All-map, ◌↔◌,
}
use jev_router.Common.Int.{ℤ, pos, negsuc}
use jev_router.Common.Float.{Float}
use jev_router.Config.Router.{Question, QuestionType}
use jev_router.Deciders.{Json, null, integer, object, Fields, no_fields, entry}
use jev_router.Deciders.Validation.{
  Refusal, invalid_envelope, invalid_usage, invalid_token_count, fields_of, validate_answer,
}
use jev_router.Deciders.Validation.Vouched.{Vouched, validate_answer-Vouched}
use jev_router.Deciders.Validation.Sound.{bind_ok}

abbrev Questions : Type 0
Questions = List (String × Question)

-- `a <= b` on texts
text_first : String → String → Bool
text_first a b = elim (compare a b) [ Ordering.gt ↦ false | _ ↦ true ]

module _ ⦃f : Float⦄ where
  abbrev pub Clean : Type 0
  Clean = List (String × Json)

  -- `data["answers"].get(qid)`, with None as JSON's null
  abbrev pub or_null : Option Json → Json
  or_null none = null
  or_null (some v) = v

  -- The answers of the reply, if it has such an object.
  unfoldable pub envelope : Json → Option Fields
  unfolding entry fields_of
  envelope (object reply) = fields_of (or_null (entry reply "answers"))
  envelope _ = none

  unfoldable pub validate_each : Fields → Questions → Result Refusal Clean
  unfolding validate_answer entry
  validate_each answers [] = ok []
  validate_each answers ((qid, question) ∷ rest) =
      validate_answer (or_null (entry answers qid)) question >>= λ c.
      validate_each answers rest >>= λ cs. ok ((qid, c) ∷ cs)

  -- A count that is there is an int and not negative.
  is_count : Option Json → Bool
  is_count none = true
  is_count (some (integer (pos n))) = true
  is_count (some _) = false

  unfoldable pub usage_of : Json → Result Refusal Fields
  unfolding entry fields_of
  usage_of (object reply) = elim (entry reply "usage") [
    | none ↦ ok no_fields
    | some usage ↦ elim (fields_of usage) [ none ↦ err invalid_usage | some counts ↦ ok counts ]
  ]
  usage_of _ = err invalid_envelope

  checked_counts : Fields → Result Refusal (Option Json)
  unfolding is_count entry
  checked_counts usage =
      if is_count (entry usage "input_tokens") && is_count (entry usage "output_tokens")
      then ok (entry usage "input_tokens")
      else err invalid_token_count

  answers_of : Option Fields → Result Refusal Fields
  answers_of none = err invalid_envelope
  answers_of (some answers) = ok answers

  -- The active answers. Any problem at all fails the whole packet.
  unfoldable pub validate_response : Json → Questions → Result Refusal (Clean × Option Json)
  unfolding envelope answers_of validate_each usage_of checked_counts
  validate_response reply questions = answers_of (envelope reply) >>= λ answers.
      validate_each answers questions >>= λ cleaned.
      usage_of reply >>= λ usage. checked_counts usage >>= λ tokens. ok (cleaned, tokens)

  -- Kept apart from the others: an answer, or the id of one that is unusable.
  sorted_out : String → Result Refusal Json → Clean × List String → Clean × List String
  sorted_out qid (err refusal) (answers, invalid) = (answers, qid ∷ invalid)
  sorted_out qid (ok c) (answers, invalid) = ((qid, c) ∷ answers, invalid)

  unfoldable pub shadow_each : Fields → Questions → Clean × List String
  unfolding sorted_out validate_answer entry
  shadow_each answers [] = ([], [])
  shadow_each answers ((qid, question) ∷ rest) =
      sorted_out qid (validate_answer (or_null (entry answers qid)) question)
        (shadow_each answers rest)

  -- Where the envelope is broken every id is invalid, in the order of `sorted`.
  shadow_in : Questions → Option Fields → Clean × List String
  unfolding shadow_each text_first sort_by
  shadow_in questions none = ([], sort_by text_first (keys questions))
  shadow_in questions (some answers) = shadow_each answers questions

  -- The shadow answers, each judged on its own. Never raises.
  unfoldable pub validate_shadow : Json → Questions → Clean × List String
  unfolding envelope shadow_in
  validate_shadow reply questions = shadow_in questions (envelope reply)

  -- One clean answer for each question, in order, each vouched for.
  pub Answered : Questions → Clean → Type 0
  Answered questions cleaned =
      (keys cleaned ≡ keys questions)
      × All
          (λ (c : String × Json).
            (question : Question) × Memᴰ (c.0, question) questions × Vouched question c.1)
          cleaned

  validate_each-Answered :
      (answers : Fields) (questions : Questions) (cleaned : Clean)
      → validate_each answers questions ≡ ok cleaned
      → Answered questions cleaned
  unfolding validate_each Answered
  validate_each-Answered answers [] cleaned h = subst (Answered []) (of_ok h) (refl, tt)
  validate_each-Answered answers ((qid, question) ∷ rest) cleaned h =
      let (c, got, h₁) = >>=-eq-ok (validate_answer (or_null (entry answers qid)) question) _ h in
      let (cs, others, h₂) = >>=-eq-ok (validate_each answers rest) _ h₁ in
      let (same, vouched) = validate_each-Answered answers rest cs others in
      subst (Answered ((qid, question) ∷ rest)) (of_ok h₂) (
        ap (λ l. qid ∷ l) same,
        (
          (
            question,
            Memᴰ.head refl,
            validate_answer-Vouched (or_null (entry answers qid)) question c got,
          ),
          All-map cs (λ x found. (found.0, Memᴰ.tail found.1, found.2)) vouched,
        ),
      )

  -- Where a reply passes, it has one clean answer for each question, in the order of the
  -- questions, each vouched for as an answer of a question with its id.
  pub validate_response-Answered :
      (reply : Json) (questions : Questions) (cleaned : Clean) (tokens : Option Json)
      → validate_response reply questions ≡ ok (cleaned, tokens)
      → Answered questions cleaned
  unfolding validate_response
  validate_response-Answered reply questions cleaned tokens h =
      let (answers, _, h₁) = >>=-eq-ok (answers_of (envelope reply)) _ h in
      let (found, each, h₂) = >>=-eq-ok (validate_each answers questions) _ h₁ in
      let (usage, _, h₃) = >>=-eq-ok (usage_of reply) _ h₂ in
      let (counted, _, h₄) = >>=-eq-ok (checked_counts usage) _ h₃ in
      subst (Answered questions) (ap (λ (p : Clean × Option Json). p.0) (of_ok h₄))
        (validate_each-Answered answers questions found each)

  shadow_each_sound :
      (answers : Fields) (questions : Questions) (cleaned : Clean)
      → validate_each answers questions ≡ ok cleaned
      → shadow_each answers questions ≡ (cleaned, [])
  unfolding validate_each shadow_each sorted_out
  shadow_each_sound answers [] cleaned h = ap (λ cs. (cs, [])) (of_ok h)
  shadow_each_sound answers ((qid, question) ∷ rest) cleaned h =
      let (c, got, h₁) = >>=-eq-ok (validate_answer (or_null (entry answers qid)) question) _ h in
      let (cs, others, h₂) = >>=-eq-ok (validate_each answers rest) _ h₁ in
      ap (λ r. sorted_out qid r (shadow_each answers rest)) got
      ∙ ap (sorted_out qid (ok c)) (shadow_each_sound answers rest cs others)
      ∙ ap (λ l. (l, [])) (of_ok h₂)

  kept_ok :
      (qid : String) (r : Result Refusal Json) (s : Clean × List String) (cleaned : Clean)
      → sorted_out qid r s ≡ (cleaned, [])
      → (c : Json) × (r ≡ ok c) × ((qid, c) ∷ s.0 ≡ cleaned) × (s.1 ≡ [])
  unfolding sorted_out
  kept_ok qid (err refusal) (answers, invalid) cleaned h = cc (ap (λ p. p.1) h)
  kept_ok qid (ok c) (answers, invalid) cleaned h = (c, refl, ap (λ p. p.0) h, ap (λ p. p.1) h)

  shadow_each_complete :
      (answers : Fields) (questions : Questions) (cleaned : Clean)
      → shadow_each answers questions ≡ (cleaned, [])
      → validate_each answers questions ≡ ok cleaned
  unfolding validate_each shadow_each
  shadow_each_complete answers [] cleaned h = ap (λ p. ok p.0) h
  shadow_each_complete answers ((qid, question) ∷ rest) cleaned h =
      let asked = validate_answer (or_null (entry answers qid)) question in
      let others = shadow_each answers rest in
      let (c, got, first, nothing) = kept_ok qid asked others cleaned h in
      bind_ok asked _ c _ got (
        bind_ok (validate_each answers rest) _ others.0 _
          (shadow_each_complete answers rest others.0 (ap (λ i. (others.0, i)) nothing))
          (ap ok first))

  -- Where a reply has an object of answers, the shadow validation finds no invalid question and
  -- these answers exactly if the validation of the active questions, one by one, gives the same
  -- answers.
  pub validate_shadow-agrees :
      (reply : Json) (answers : Fields) (questions : Questions) (cleaned : Clean)
      → envelope reply ≡ some answers
      → validate_shadow reply questions ≡ (cleaned, [])
        ↔ validate_each answers questions ≡ ok cleaned
  unfolding validate_shadow shadow_in
  validate_shadow-agrees reply answers questions cleaned has =
      let same = ap (shadow_in questions) has in
      (
        (λ h. shadow_each_complete answers questions cleaned (sym same ∙ h)),
        (λ h. same ∙ shadow_each_sound answers questions cleaned h),
      )
