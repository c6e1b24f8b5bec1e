-- ===== src/Policy/Rules/Pressure.antt =====
-- What quota pressure may change of the rule that fires (`_match_rules` of
-- src/jev_router/policy.py).
use mathlib.Core.List.{Memᴰ}
use mathlib.Core.Bool.{true≢false}
use jev_router.Common.{
  true, false, Bool-cases, String, List, [], ◌∷◌, ◌++◌, some, ◌≡◌, refl, sym, ap, ◌∙◌, All, inl,
  inr,
}
use jev_router.Common.Float.{Float}
use jev_router.Features.{Features}
use jev_router.Config.Router.{Rule}
use jev_router.Policy.Answers.{Answers}
use jev_router.Policy.Match.{Pressures}
use jev_router.Policy.Match.Shifts.{ShiftLaws, FiniteCondition, matches-calm}
use jev_router.Policy.Rules.{applied, is_skipped, hits, first_rule}
use jev_router.Policy.Rules.Fires.{
  first_rule-Fires, first_rule-skip, first_rule-hit, first_rule-miss,
}

module _ ⦃f : Float⦄ where
  module _ (answers : Answers) (features : Features) (running : List String) where
    -- Where the rule that fires when nothing is under pressure stands: at `r`, or before it.
    abbrev pub AtOrBefore : List Rule → Rule → Type 0
    AtOrBefore rules r =
        (s : Rule) × (before : List Rule) × (after : List Rule) × (rules ≡ before ++ s ∷ after)
        × ((first_rule rules answers features [] running).0 ≡ some s)
        × Memᴰ r (s ∷ after)

    applied-none : (rule : Rule) → applied rule [] ≡ []
    unfolding applied
    applied-none rule = elim (Bool-cases rule.protected) [
      | inl shielded ↦ rw shielded
      | inr open' ↦ rw open'
    ]

    module _ (laws : ShiftLaws) where
      abbrev pub FiniteRule : Rule → Type 0
      FiniteRule rule = All (FiniteCondition laws.finite) rule.when

      hits-calm :
          (pressures : Pressures) (rule : Rule)
          → FiniteRule rule
          → (hits answers features pressures rule).0 ≡ true
          → (hits answers features [] rule).0 ≡ true
      unfolding hits
      hits-calm pressures rule fin h =
          rw (applied-none rule)
            (matches-calm laws rule.when answers features (applied rule pressures) rule.name fin h)

      extend :
          (rule : Rule) (rules : List Rule) (r : Rule)
          → (first_rule (rule ∷ rules) answers features [] running).0
            ≡ (first_rule rules answers features [] running).0
          → AtOrBefore rules r
          → AtOrBefore (rule ∷ rules) r
      extend rule rules r same h = (h.0, rule ∷ h.1, h.2, ap (λ l. rule ∷ l) h.3, same ∙ h.4, h.5)

      still_misses :
          (pressures : Pressures) (rule : Rule)
          → FiniteRule rule
          → (hits answers features [] rule).0 ≡ false
          → (hits answers features pressures rule).0 ≡ false
      still_misses pressures rule fin miss =
          elim (Bool-cases (hits answers features pressures rule).0) [
            | inl hit ↦ absurd (true≢false (sym (hits-calm pressures rule fin hit) ∙ miss))
            | inr no_hit ↦ no_hit
          ]

      -- Quota pressure only moves the choice down the list: where a rule fires under pressure, the
      -- rule that fires without it stands at that rule or before it. Every `max_shift` is finite.
      pub first_rule-AtOrBefore :
          (pressures : Pressures) (rules : List Rule) (r : Rule)
          → All FiniteRule rules
          → (first_rule rules answers features pressures running).0 ≡ some r
          → AtOrBefore rules r
      unfolding first_rule
      first_rule-AtOrBefore pressures [] r fin h = cc
      first_rule-AtOrBefore pressures (rule ∷ rules) r fin h =
          elim (Bool-cases (is_skipped running rule)) [
            | inl skipped ↦
                extend rule rules r (first_rule-skip answers features running [] rule rules skipped)
                  (first_rule-AtOrBefore pressures rules r fin.1 (
                    sym (first_rule-skip answers features running pressures rule rules skipped)
                    ∙ h))
            | inr live ↦ elim (Bool-cases (hits answers features [] rule).0) [
              | inl hit ↦ (
                rule,
                [],
                rules,
                refl,
                first_rule-hit answers features running [] rule rules live hit,
                (first_rule-Fires answers features running pressures (rule ∷ rules) r h).0,
              )
              | inr miss ↦
                  extend rule rules r
                    (first_rule-miss answers features running [] rule rules live miss)
                    (first_rule-AtOrBefore pressures rules r fin.1 (
                      sym (
                        first_rule-miss answers features running pressures rule rules live
                          (still_misses pressures rule fin.0 miss))
                      ∙ h))
            ]
          ]
