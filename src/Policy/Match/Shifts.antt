-- ===== src/Policy/Match/Shifts.antt =====
-- A shift only ever makes a rule harder to reach (src/jev_router/policy.py, `moved` inside
-- `_answer_matches`), as the comment there says.
use jev_router.Common.{
  Bool, true, false, Bool-cases, String, List, [], ◌∷◌, Option, none, some, ◌≡◌, refl, All, lookup,
  inl, inr,
}
use jev_router.Common.Float.{Float, Number, ◌<=◌, ◌<<◌}
use jev_router.Features.{Features}
use jev_router.Config.Conditions.{
  Value, label, number, Op, is_in, not_in, eq, gte, lte, conf_gte, p_hard_gte, p_hard_lte,
  p_nontrivial_gte, p_nontrivial_lte, other, AnswerCond, Condition, feature, answer,
}
use jev_router.Policy.Answers.{Answer, Answers}
use jev_router.Policy.Match.{
  ShiftOp, Shift, Pressures, nought, max_zero, min_one, or_nought, Amount, amount_of, shift_amount,
  points, is_nought, effective, moved, at_least, at_most, at_least_moved, at_most_moved,
  confidence_moved, op_matches, and_then, ops_match, answer_matches, condition_matches, matches,
}

module _ ⦃f : Float⦄ where
  -- What the comparison relies on of a float. Each law holds of every float, the infinities and
  -- the NaN included; `finite` is `math.isfinite`.
  pub record ShiftLaws : Type 0 where
    pub finite : Number → Bool
    pub finite_zero : finite nought ≡ true
    pub zero_one : (nought << f.decimal 1 0) ≡ true
    pub zero_zero : (nought <= nought) ≡ true
    pub lt-le : (a b : Number) → (a << b) ≡ true → (a <= b) ≡ true
    pub mul_zero :
        (a : Number)
        → finite a ≡ true
        → ((f.mul a nought <= nought) ≡ true) × ((nought <= f.mul a nought) ≡ true)
    pub add_mul :
        (a b x v : Number)
        → (nought <= a) ≡ true
        → (nought <= b) ≡ true
        → (f.add x (f.mul a b) <= v) ≡ true
        → (x <= v) ≡ true
    pub sub_mul :
        (a b x v : Number)
        → (nought <= a) ≡ true
        → (nought <= b) ≡ true
        → (v <= f.sub x (f.mul a b)) ≡ true
        → (v <= x) ≡ true

  -- Neither side of the product is negative, so no shift has the wrong sign.
  abbrev Sound : Amount → Type 0
  Sound a = ((nought <= a.factor) ≡ true) × ((nought <= a.pressure) ≡ true)

  abbrev Calm : Amount → Type 0
  Calm a = is_nought (points a) ≡ true

  abbrev FiniteShift : (Number → Bool) → Option Number → Type 0
  FiniteShift finite none = Unit {0}
  FiniteShift finite (some x) = finite (max_zero x) ≡ true

  -- `max_shift` is finite, for every condition of the rule.
  abbrev pub FiniteCondition : (Number → Bool) → Condition → Type 0
  FiniteCondition finite (feature c) = Unit {0}
  FiniteCondition finite (answer question c) = FiniteShift finite c.max_shift

  module _ (laws : ShiftLaws) where
    max_zero-nonneg : (x : Number) → (nought <= max_zero x) ≡ true
    unfolding max_zero
    max_zero-nonneg x = elim (Bool-cases (nought << x)) [
      | inl above ↦ rw above (laws.lt-le nought x above)
      | inr below ↦ rw below laws.zero_zero
    ]

    max_zero-zero : max_zero nought ≡ nought
    unfolding max_zero
    max_zero-zero = elim (Bool-cases (nought << nought)) [
      | inl above ↦ rw above
      | inr below ↦ rw below
    ]

    min_one-zero : min_one nought ≡ nought
    unfolding min_one
    min_one-zero = rw laws.zero_one

    amount_of-Sound :
        (provider : Option String) (max_shift : Option Number) (pressures : Pressures)
        → Sound (amount_of provider max_shift pressures)
    unfolding amount_of
    amount_of-Sound (some p) (some x) pressures =
        (max_zero-nonneg x, max_zero-nonneg (min_one (or_nought (lookup p pressures))))
    amount_of-Sound (some p) none pressures = (laws.zero_zero, laws.zero_zero)
    amount_of-Sound none x pressures = (laws.zero_zero, laws.zero_zero)

    mul_zero-Calm :
        (x : Number) (provider : String)
        → laws.finite x ≡ true
        → Calm (record { factor = x; provider = provider; pressure = nought })
    unfolding points is_nought
    mul_zero-Calm x provider h = rw ((laws.mul_zero x h).0, (laws.mul_zero x h).1)

    amount_of-Calm :
        (provider : Option String) (x : Option Number)
        → FiniteShift laws.finite x
        → Calm (amount_of provider x [])
    unfolding amount_of lookup
    amount_of-Calm (some p) (some x) h =
        rw (min_one-zero, max_zero-zero) (mul_zero-Calm (max_zero x) p h)
    amount_of-Calm (some p) none h = mul_zero-Calm nought "" laws.finite_zero
    amount_of-Calm none x h = mul_zero-Calm nought "" laws.finite_zero

    moved-Calm :
        (a : Amount) (rule question : String) (op : ShiftOp) (x : Number)
        → Calm a
        → (moved a rule question op x).0 ≡ x
    unfolding moved
    moved-Calm a rule question op x h = rw h

    at_least-moved :
        (a : Amount) (rule question : String) (v : Value) (x : Number)
        → Sound a
        → at_least v (moved a rule question ShiftOp.shifted_gte x).0 ≡ true
        → at_least v x ≡ true
    unfolding moved at_least effective points
    at_least-moved a rule question (label v) x sound h = h
    at_least-moved a rule question (number v) x sound h = elim (Bool-cases (is_nought (points a))) [
      | inl calm ↦ rw calm at h
      | inr hot ↦ laws.add_mul a.factor a.pressure x v sound.0 sound.1 (rw hot at h)
    ]

    at_most-moved :
        (a : Amount) (rule question : String) (v : Value) (x : Number)
        → Sound a
        → at_most v (moved a rule question ShiftOp.shifted_lte x).0 ≡ true
        → at_most v x ≡ true
    unfolding moved at_most effective points
    at_most-moved a rule question (label v) x sound h = h
    at_most-moved a rule question (number v) x sound h = elim (Bool-cases (is_nought (points a))) [
      | inl calm ↦ rw calm at h
      | inr hot ↦ laws.sub_mul a.factor a.pressure x v sound.0 sound.1 (rw hot at h)
    ]

    confidence-moved :
        (a : Amount) (rule question : String) (conf x : Number)
        → Sound a
        → ((moved a rule question ShiftOp.shifted_conf_gte x).0 <= conf) ≡ true
        → (x <= conf) ≡ true
    unfolding moved effective points
    confidence-moved a rule question conf x sound h = elim (Bool-cases (is_nought (points a))) [
      | inl calm ↦ rw calm at h
      | inr hot ↦ laws.add_mul a.factor a.pressure x conf sound.0 sound.1 (rw hot at h)
    ]

    confidence_moved-Calm :
        (a calm : Amount) (rule question : String) (conf : Option Number) (x : Number)
        → Sound a
        → Calm calm
        → (confidence_moved conf (moved a rule question ShiftOp.shifted_conf_gte x)).0 ≡ true
        → (confidence_moved conf (moved calm rule question ShiftOp.shifted_conf_gte x)).0 ≡ true
    unfolding confidence_moved
    confidence_moved-Calm a calm rule question none x sound still h = h
    confidence_moved-Calm a calm rule question (some conf) x sound still h =
        rw (moved-Calm calm rule question ShiftOp.shifted_conf_gte x still)
          (confidence-moved a rule question conf x sound h)

    and_then-first : (m n : Bool × List Shift) → (and_then m n).0 ≡ true → m.0 ≡ true
    unfolding and_then
    and_then-first (true, seen) n h = refl
    and_then-first (false, seen) n h = h

    and_then-rest : (m n : Bool × List Shift) → (and_then m n).0 ≡ true → n.0 ≡ true
    unfolding and_then
    and_then-rest (true, seen) (hit, more) h = h
    and_then-rest (false, seen) n h = cc

    and_then-both : (m n : Bool × List Shift) → m.0 ≡ true → n.0 ≡ true → (and_then m n).0 ≡ true
    unfolding and_then
    and_then-both (true, seen) (hit, more) h k = k
    and_then-both (false, seen) n h k = h

    op_matches-Calm :
        (a calm : Amount) (rule question : String) (ans : Answer) (op : Op)
        → Sound a
        → Calm calm
        → (op_matches a rule question ans op).0 ≡ true
        → (op_matches calm rule question ans op).0 ≡ true
    unfolding op_matches at_least_moved at_most_moved
    op_matches-Calm a calm rule question ans (is_in vs) sound still h = h
    op_matches-Calm a calm rule question ans (not_in vs) sound still h = h
    op_matches-Calm a calm rule question ans (eq v) sound still h = h
    op_matches-Calm a calm rule question ans (gte x) sound still h =
        rw (moved-Calm calm rule question ShiftOp.shifted_gte x still)
          (at_least-moved a rule question ans.value x sound h)
    op_matches-Calm a calm rule question ans (lte x) sound still h =
        rw (moved-Calm calm rule question ShiftOp.shifted_lte x still)
          (at_most-moved a rule question ans.value x sound h)
    op_matches-Calm a calm rule question ans (conf_gte x) sound still h =
        confidence_moved-Calm a calm rule question ans.confidence x sound still h
    op_matches-Calm a calm rule question ans (p_hard_gte x) sound still h = h
    op_matches-Calm a calm rule question ans (p_hard_lte x) sound still h = h
    op_matches-Calm a calm rule question ans (p_nontrivial_gte x) sound still h = h
    op_matches-Calm a calm rule question ans (p_nontrivial_lte x) sound still h = h
    op_matches-Calm a calm rule question ans (other key) sound still h = refl

    ops_match-Calm :
        (a calm : Amount) (rule question : String) (ans : Answer) (ops : List Op)
        → Sound a
        → Calm calm
        → (ops_match a rule question ans ops).0 ≡ true
        → (ops_match calm rule question ans ops).0 ≡ true
    unfolding ops_match
    ops_match-Calm a calm rule question ans [] sound still h = refl
    ops_match-Calm a calm rule question ans (op ∷ ops) sound still h =
        and_then-both (op_matches calm rule question ans op) (ops_match calm rule question ans ops)
          (op_matches-Calm a calm rule question ans op sound still (
            and_then-first (op_matches a rule question ans op) (ops_match a rule question ans ops)
              h))
          (ops_match-Calm a calm rule question ans ops sound still (
            and_then-rest (op_matches a rule question ans op) (ops_match a rule question ans ops)
              h))

    answer_matches-calm :
        (c : AnswerCond) (ans : Option Answer) (pressures : Pressures) (rule question : String)
        → FiniteShift laws.finite c.max_shift
        → (answer_matches c ans pressures rule question).0 ≡ true
        → (answer_matches c ans [] rule question).0 ≡ true
    unfolding answer_matches shift_amount
    answer_matches-calm c none pressures rule question fin h = h
    answer_matches-calm c (some ans) pressures rule question fin h =
        ops_match-Calm (amount_of c.shift_with c.max_shift pressures)
          (amount_of c.shift_with c.max_shift []) rule question ans c.ops
          (amount_of-Sound c.shift_with c.max_shift pressures)
          (amount_of-Calm c.shift_with c.max_shift fin) h

    condition_matches-calm :
        (c : Condition) (answers : Answers) (features : Features) (pressures : Pressures)
        (rule : String)
        → FiniteCondition laws.finite c
        → (condition_matches c answers features pressures rule).0 ≡ true
        → (condition_matches c answers features [] rule).0 ≡ true
    unfolding condition_matches
    condition_matches-calm (feature c) answers features pressures rule fin h = h
    condition_matches-calm (answer question c) answers features pressures rule fin h =
        answer_matches-calm c (lookup question answers) pressures rule question fin h

    -- A rule that matches under some quota pressure matches under none, where every `max_shift` of
    -- its conditions is finite.
    pub matches-calm :
        (when : List Condition) (answers : Answers) (features : Features) (pressures : Pressures)
        (rule : String)
        → All (FiniteCondition laws.finite) when
        → (matches when answers features pressures rule).0 ≡ true
        → (matches when answers features [] rule).0 ≡ true
    unfolding matches
    matches-calm [] answers features pressures rule fin h = refl
    matches-calm (c ∷ cs) answers features pressures rule fin h =
        and_then-both (condition_matches c answers features [] rule)
          (matches cs answers features [] rule)
          (condition_matches-calm c answers features pressures rule fin.0 (
            and_then-first (condition_matches c answers features pressures rule)
              (matches cs answers features pressures rule) h))
          (matches-calm cs answers features pressures rule fin.1 (
            and_then-rest (condition_matches c answers features pressures rule)
              (matches cs answers features pressures rule) h))
