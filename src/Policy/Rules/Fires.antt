-- ===== src/Policy/Rules/Fires.antt =====
-- Which rule fires (`_match_rules` of src/jev_router/policy.py).
use mathlib.Core.List.{Memᴰ}
use mathlib.Core.Bool.{true≢false}
use mathlib.Core.Option.{none-ne-some}
use jev_router.Common.{
  Bool, true, false, Bool-cases, String, List, [], ◌∷◌, Option, none, some, of_some, Option-cases,
  ◌≡◌, refl, sym, ap, ◌∙◌, All, inl, inr, ◌⊎◌, contains, subst,
}
use jev_router.Common.Float.{Float}
use jev_router.Features.{Features}
use jev_router.Config.Router.{Rule, Ruleset, RouterConfig}
use jev_router.Policy.Answers.{Answers, rule_uses_distribution}
use jev_router.Policy.Match.{Shift, Pressures}
use jev_router.Policy.Rules.{
  is_skipped, hits, record_shifts, step_rule, first_rule, default_pick, rule_pick, pick_of,
  match_rules,
}

module _ ⦃f : Float⦄ where
  -- The rule is in force: it reads no distribution, or it is an experiment that is running.
  abbrev pub InForce : List String → Rule → Type 0
  InForce running rule = rule_uses_distribution rule ≡ true → contains running rule.name ≡ true

  not_skipped-InForce :
      (running : List String) (rule : Rule) → is_skipped running rule ≡ false → InForce running rule
  unfolding is_skipped
  not_skipped-InForce running rule h uses = elim (Bool-cases (contains running rule.name)) [
    | inl run ↦ run
    | inr idle ↦ absurd (true≢false (rw (idle, uses) at h))
  ]

  pick_of-none :
      (config : RouterConfig) (rs : Ruleset) (m : Option Rule × List Shift)
      → m.0 ≡ none
      → (pick_of config rs m).0 ≡ default_pick config rs
  unfolding pick_of
  pick_of-none config rs (none, shifts) h = refl
  pick_of-none config rs (some r, shifts) h = cc

  pick_of-some :
      (config : RouterConfig) (rs : Ruleset) (m : Option Rule × List Shift) (r : Rule)
      → m.0 ≡ some r
      → (pick_of config rs m).0 ≡ rule_pick r
  unfolding pick_of
  pick_of-some config rs (none, shifts) r h = cc
  pick_of-some config rs (some s, shifts) r h = ap rule_pick (of_some h)

  module _ (answers : Answers) (features : Features) (running : List String) where
    step_rule-hit :
        (rule : Rule) (seen : List Shift) (rest : Option Rule × List Shift)
        → (step_rule answers features rule (true, seen) rest).0 ≡ some rule
    unfolding step_rule
    step_rule-hit rule seen rest = refl

    step_rule-true :
        (rule : Rule) (m : Bool × List Shift) (rest : Option Rule × List Shift)
        → m.0 ≡ true
        → (step_rule answers features rule m rest).0 ≡ some rule
    unfolding step_rule
    step_rule-true rule (true, seen) rest h = refl
    step_rule-true rule (false, seen) rest h = cc

    step_rule-false :
        (rule : Rule) (m : Bool × List Shift) (rest : Option Rule × List Shift)
        → m.0 ≡ false
        → (step_rule answers features rule m rest).0 ≡ rest.0
    unfolding step_rule record_shifts
    step_rule-false rule (true, seen) rest h = cc
    step_rule-false rule (false, seen) (hit, later) h = refl

    -- What the rule that fires is.
    abbrev pub Fires : Pressures → List Rule → Rule → Type 0
    Fires pressures rules r =
        Memᴰ r rules × InForce running r × ((hits answers features pressures r).0 ≡ true)

    later :
        (pressures : Pressures) (rule : Rule) (rules : List Rule) (r : Rule)
        → Fires pressures rules r
        → Fires pressures (rule ∷ rules) r
    later pressures rule rules r h = (Memᴰ.tail h.0, h.1, h.2)

    module _ (pressures : Pressures) (rule : Rule) (rules : List Rule) where
      pub first_rule-skip :
          is_skipped running rule ≡ true
          → (first_rule (rule ∷ rules) answers features pressures running).0
            ≡ (first_rule rules answers features pressures running).0
      unfolding first_rule
      first_rule-skip skipped = rw skipped

      pub first_rule-hit :
          is_skipped running rule ≡ false
          → (hits answers features pressures rule).0 ≡ true
          → (first_rule (rule ∷ rules) answers features pressures running).0 ≡ some rule
      unfolding first_rule
      first_rule-hit live hit = rw live (
          step_rule-true rule (hits answers features pressures rule)
            (first_rule rules answers features pressures running) hit)

      pub first_rule-miss :
          is_skipped running rule ≡ false
          → (hits answers features pressures rule).0 ≡ false
          → (first_rule (rule ∷ rules) answers features pressures running).0
            ≡ (first_rule rules answers features pressures running).0
      unfolding first_rule
      first_rule-miss live miss = rw live (
          step_rule-false rule (hits answers features pressures rule)
            (first_rule rules answers features pressures running) miss)

    pub first_rule-Fires :
        (pressures : Pressures) (rules : List Rule) (r : Rule)
        → (first_rule rules answers features pressures running).0 ≡ some r
        → Fires pressures rules r
    unfolding first_rule
    first_rule-Fires pressures [] r h = cc
    first_rule-Fires pressures (rule ∷ rules) r h = elim (Bool-cases (is_skipped running rule)) [
      | inl skipped ↦ later pressures rule rules r (
          first_rule-Fires pressures rules r
            (sym (first_rule-skip pressures rule rules skipped) ∙ h))
      | inr live ↦ elim (Bool-cases (hits answers features pressures rule).0) [
        | inl hit ↦
            subst (Fires pressures (rule ∷ rules))
              (of_some (sym (first_rule-hit pressures rule rules live hit) ∙ h))
              (Memᴰ.head refl, not_skipped-InForce running rule live, hit)
        | inr miss ↦ later pressures rule rules r (
            first_rule-Fires pressures rules r
              (sym (first_rule-miss pressures rule rules live miss) ∙ h))
      ]
    ]

    -- No rule in force matches.
    abbrev pub NoneFires : Pressures → List Rule → Type 0
    NoneFires pressures =
        All (λ r. is_skipped running r ≡ false → (hits answers features pressures r).0 ≡ false)

    first_rule-NoneFires :
        (pressures : Pressures) (rules : List Rule)
        → (first_rule rules answers features pressures running).0 ≡ none
        → NoneFires pressures rules
    first_rule-NoneFires pressures [] h = tt
    first_rule-NoneFires pressures (rule ∷ rules) h = elim (Bool-cases (is_skipped running rule)) [
      | inl skipped ↦ (
        λ live. absurd (true≢false (sym skipped ∙ live)),
        first_rule-NoneFires pressures rules
            (sym (first_rule-skip pressures rule rules skipped) ∙ h),
      )
      | inr live ↦ elim (Bool-cases (hits answers features pressures rule).0) [
        | inl hit ↦
            absurd (none-ne-some rule (sym h ∙ first_rule-hit pressures rule rules live hit))
        | inr miss ↦ (
          λ _. miss,
          first_rule-NoneFires pressures rules
              (sym (first_rule-miss pressures rule rules live miss) ∙ h),
        )
      ]
    ]

    -- The rules give the default where none of those in force matches, and otherwise the choice of
    -- one that is in force and matches, at the pressures that apply to it. A rule that reads a
    -- distribution is in force only while its experiment runs.
    pub match_rules-cases :
        (config : RouterConfig) (rs : Ruleset) (pressures : Pressures)
        → (((match_rules config rs answers features pressures running).0 ≡ default_pick config rs)
            × NoneFires pressures rs.rules)
          ⊎ ((r : Rule) × ((match_rules config rs answers features pressures running).0
                ≡ rule_pick r)
              × Fires pressures rs.rules r)
    unfolding match_rules
    match_rules-cases config rs pressures =
        elim (Option-cases (first_rule rs.rules answers features pressures running).0) [
          | inl nothing ↦ inl (
            pick_of-none config rs (first_rule rs.rules answers features pressures running) nothing,
            first_rule-NoneFires pressures rs.rules nothing,
          )
          | inr (r, found) ↦ inr (
            r,
            pick_of-some config rs (first_rule rs.rules answers features pressures running) r found,
            first_rule-Fires pressures rs.rules r found,
          )
        ]
