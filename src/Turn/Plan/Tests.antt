-- ===== src/Turn/Plan/Tests.antt =====
-- Turns that run, and the theorems of `plan_turn` at them.
use mathlib.Core.List.{Memᴰ}
use jev_router.Common.{
  replicate, ℕ, suc, ◌≤◌, ◌<◌, max, ◌≡◌, ◌≢◌, ◌⊎◌, inr, refl, true, false, String, List, [], ◌∷◌,
  ◌++◌, Option, none, some, get_elem?, index_of, index_of?, opt_eq,
}
use jev_router.Common.Float.{◌<=◌}
use jev_router.Config.Adaptive.{Downward}
use jev_router.Fixtures.{fixed}
use jev_router.Fixtures.Turns.{cfg, hard, easy}
use jev_router.Turn.Evidence.{Evidence, missing, upward, wants_less}
use jev_router.Turn.Target.{target_index, reach, reach_rungs, reach_named}
use jev_router.Turn.Plan.{
  TurnPlan, Direction, plan_turn, plan_on, plan_at, plan_checked, plan_move, settle, confirm,
  choose_move, start, clamp_pressure, bottom_of, confirmations_for, moved_reason,
}
use jev_router.Turn.Plan.Moves.{plan_turn-in_bounds, plan_turn-upward, plan_turn-downward}
use jev_router.Turn.Plan.Kept.{IsKept, LacksEvidence, plan_turn-IsKept}
use jev_router.Turn.Plan.Confirmations.{EndsElsewhere, confirmations_for-run}
use jev_router.Turn.Target.Reach.{target_index-covers}
use jev_router.Turn.Plan.Quota.{at_pressure, plan_turn-ignores_pressure}

abbrev ladder : List String
ladder = "low" ∷ "medium" ∷ "high" ∷ []

-- A hard turn on `low`.
climb : TurnPlan
unfolding plan_turn plan_on plan_at plan_checked plan_move settle confirm choose_move start
    bottom_of index_of? opt_eq missing upward wants_less target_index reach reach_rungs reach_named
    moved_reason clamp_pressure index_of
climb = plan_turn cfg ladder (some "low") (some "low") none hard [] 0 false

-- An easy turn on `high`, with one more recommendation of `medium` before it.
fall : TurnPlan
unfolding climb confirmations_for
fall = plan_turn cfg ladder (some "high") (some "low") none easy (some "medium" ∷ []) 0 false

climb_goes_to_the_top : climb.to_effort ≡ some "high"
unfolding climb
climb_goes_to_the_top = refl

fall_goes_one_rung : fall.to_effort ≡ some "medium"
unfolding fall
fall_goes_one_rung = refl

unconfirmed_fall_waits :
    (plan_turn cfg ladder (some "high") (some "low") none easy [] 0 false).to_effort ≡ some "high"
unfolding fall
unconfirmed_fall_waits = refl

plan_turn-in_bounds_example :
    (w : ℕ) × (rung : String) × (get_elem? ladder w ≡ some rung)
    × (climb.to_effort ≡ some rung)
    × (climb.recommendation ≡ some rung)
    × (bottom_of ladder none ≤ w)
    × (opt_eq (some rung) (some "low") ≡ false)
unfolding climb
plan_turn-in_bounds_example =
    plan_turn-in_bounds cfg ladder (some "low") (some "low") none hard [] 0 false refl

-- The same hard turn with nothing said about the harm of a wrong answer
abbrev unsaid : Evidence
unsaid = record hard { harm_if_wrong = none }

unsaid-LacksEvidence : LacksEvidence unsaid
unsaid-LacksEvidence = inr (inr refl)

plan_turn-IsKept_example :
    IsKept (some "low") (plan_turn cfg ladder (some "low") (some "low") none unsaid [] 0 false)
plan_turn-IsKept_example =
    plan_turn-IsKept cfg ladder (some "low") (some "low") none unsaid [] 0 false
      unsaid-LacksEvidence

hard_asks : upward hard cfg.thresholds ≢ none
unfolding upward
hard_asks h = cc

plan_turn-upward_example :
    (at : ℕ) × (w : ℕ) × (index_of? ladder (some "low") ≡ some at)
    × (get_elem? ladder w ≡ climb.to_effort)
    × (climb.direction ≡ Direction.up)
    × (at < w)
    × (w ≡ max (target_index hard cfg ladder at false).want (bottom_of ladder none))
unfolding climb
plan_turn-upward_example =
    plan_turn-upward cfg ladder (some "low") (some "low") none hard [] 0 false refl hard_asks

plan_turn-downward_example :
    (at : ℕ) × (w : ℕ) × (index_of? ladder (some "high") ≡ some at)
    × (get_elem? ladder w ≡ fall.to_effort)
    × (fall.direction ≡ Direction.down)
    × ((wants_less easy cfg.thresholds ≡ true)
        ⊎ ((cfg.thresholds.quota_pressure_at <= clamp_pressure 0) ≡ true))
    × (cfg.hysteresis ≡ true
        → cfg.downgrade_confirmations
          ≤ confirmations_for ((some "medium" ∷ []) ++ fall.to_effort ∷ []) fall.to_effort)
    × (cfg.downward ≡ Downward.step → bottom_of ladder none ≤ at → suc w ≡ at)
unfolding fall
plan_turn-downward_example =
    plan_turn-downward cfg ladder (some "high") (some "low") none easy (some "medium" ∷ []) 0 false
      refl refl

plan_turn-ignores_pressure_example :
    at_pressure 0 (plan_turn cfg ladder (some "high") (some "low") none easy [] 0 false)
    ≡ at_pressure 0 (plan_turn cfg ladder (some "high") (some "low") none easy [] 10000 false)
unfolding wants_less
plan_turn-ignores_pressure_example =
    plan_turn-ignores_pressure cfg ladder (some "high") (some "low") none easy [] 0 10000 0 false
      (inr refl)

confirmations_for-run_example :
    (pre : List (Option String)) × ((some "low" ∷ some "high" ∷ some "high" ∷ [])
      ≡ pre
        ++ replicate
            (confirmations_for (some "low" ∷ some "high" ∷ some "high" ∷ []) (some "high"))
            (some "high"))
    × EndsElsewhere pre (some "high")
confirmations_for-run_example =
    confirmations_for-run (some "low" ∷ some "high" ∷ some "high" ∷ []) (some "high")

target_index-covers_example : 2 ≤ (target_index hard cfg ladder 0 false).want
target_index-covers_example =
    target_index-covers hard cfg ladder 0 false "high" 26000 2 refl (Memᴰ.tail (Memᴰ.head refl))
      refl (unfold index_of in refl)
