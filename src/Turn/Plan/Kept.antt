-- ===== src/Turn/Plan/Kept.antt =====
-- What `plan_turn` of src/jev_router/effort.py keeps where the classifier gave too little.
use jev_router.Common.{
  ℕ, ◌≡◌, ◌≢◌, ◌⊎◌, refl, Bool, true, false, not, String, str_eq, str_eq_iff, List, [], ◌∷◌, Option,
  none, some, length, ltb, index_of?, Bool-cases, Option-cases, inl, inr,
}
use jev_router.Common.Float.{Float, Number}
use jev_router.Config.Adaptive.{AdaptiveEffortCfg}
use jev_router.Turn.Evidence.{Evidence, Answer, missing, absent}
use jev_router.Turn.Plan.{TurnPlan, hold, Action, start, plan_turn, plan_at, plan_on, plan_checked}

module _ ⦃f : Float⦄ where
  -- Nothing was changed, asked for or counted.
  pub IsKept : Option String → TurnPlan → Type 0
  IsKept current p =
      (p.action ≡ Action.keep)
      × (p.to_effort ≡ current)
      × (p.recommendation ≡ current)
      × (p.direction ≡ hold)
      × (p.confirmations ≡ 0)

  -- The classifier failed, or one of the two answers that the policy needs is not there.
  abbrev pub LacksEvidence : Evidence → Type 0
  LacksEvidence e = (e.error ≢ "") ⊎ ((e.difficulty ≡ none) ⊎ (e.harm_if_wrong ≡ none))

  plan_checked-IsKept :
      (p : TurnPlan) (current : Option String) (broken : Bool) (ms : List Answer) (q : TurnPlan)
      → (broken ≡ true) ⊎ (ms ≢ [])
      → IsKept current p
      → IsKept current (plan_checked p broken ms q)
  unfolding plan_checked IsKept
  plan_checked-IsKept p current true ms q lacks kept = kept
  plan_checked-IsKept p current false (a ∷ rest) q lacks kept = kept
  plan_checked-IsKept p current false [] q (inl e) kept = cc
  plan_checked-IsKept p current false [] q (inr some_) kept = absurd (some_ refl)

  first_missing : (e : Evidence) → e.difficulty ≡ none → missing e ≢ []
  unfolding missing absent
  first_missing e gone h = cc (rw gone at h)

  second_missing :
      (e : Evidence)
      → e.harm_if_wrong ≡ none
      → (e.difficulty ≡ none) ⊎ ((d : Number) × (e.difficulty ≡ some d))
      → missing e ≢ []
  unfolding missing absent
  second_missing e gone (inl none_) h = first_missing e none_ h
  second_missing e gone (inr (d, given)) h = cc (rw (gone, given) at h)

  guard_stops :
      (e : Evidence) → LacksEvidence e → (not (str_eq e.error "") ≡ true) ⊎ (missing e ≢ [])
  guard_stops e (inl failed) = elim (Bool-cases (str_eq e.error "")) [
    | inl blank ↦ absurd (failed ((str_eq_iff e.error "").0 blank))
    | inr said ↦ inl (rw said refl)
  ]
  guard_stops e (inr (inl no_difficulty)) = inr (λ h. first_missing e no_difficulty h)
  guard_stops e (inr (inr no_harm)) =
      inr (λ h. second_missing e no_harm (Option-cases e.difficulty) h)

  module _ (cfg : AdaptiveEffortCfg) (ladder : List String) (current base floor : Option String)
      (e : Evidence) (recommendations : List (Option String)) (pressure : Number)
      (protected : Bool) where
    plan_on-IsKept :
        (at : Option ℕ)
        → LacksEvidence e
        → IsKept current (
            plan_on cfg
              (start cfg ladder current base floor e pressure)
              protected
              recommendations
              at)
    unfolding plan_on plan_at start IsKept
    plan_on-IsKept none lacks = (refl, refl, refl, refl, refl)
    plan_on-IsKept (some at) lacks =
        plan_checked-IsKept (start cfg ladder current base floor e pressure) current
          (not (str_eq e.error "")) (missing e) _ (guard_stops e lacks)
          (refl, refl, refl, refl, refl)

    -- Where the classifier failed, or did not say how difficult the turn is or how much harm a
    -- wrong answer does, the turn keeps its effort: no change, no other recommendation, no
    -- direction and no confirmation counted, whatever the pressure and the earlier turns say.
    pub plan_turn-IsKept :
        LacksEvidence e
        → IsKept current
            (plan_turn cfg ladder current base floor e recommendations pressure protected)
    unfolding plan_turn start IsKept
    plan_turn-IsKept lacks = elim (Bool-cases (ltb (length ladder) 2)) [
      | inl one ↦ rw one (refl, refl, refl, refl, refl)
      | inr more ↦ rw more (plan_on-IsKept (index_of? ladder current) lacks)
    ]
