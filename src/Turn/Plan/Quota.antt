-- ===== src/Turn/Plan/Quota.antt =====
-- Quota pressure reaches only a turn that argues neither way (`plan_turn` of
-- src/jev_router/effort.py).
use jev_router.Common.{
  ℕ, ◌≡◌, ◌≢◌, ◌⊎◌, inl, inr, refl, sym, ap, ◌∙◌, Bool, true, false, not, String, str_eq, List, [],
  ◌∷◌, Option, none, some, arith, length, index_of?, ltb, Bool-cases,
}
use jev_router.Common.Float.{Float, Number}
use jev_router.Config.Adaptive.{AdaptiveEffortCfg}
use jev_router.Turn.Evidence.{Evidence, Answer, missing, upward, wants_less}
use jev_router.Turn.Plan.{
  TurnPlan, Move, Reason, start, plan_turn, plan_on, plan_at, plan_checked, plan_move, settle,
  confirm, change, choose_move, bottom_of,
}

module _ ⦃f : Float⦄ where
  -- The plan with the recorded pressure set to `z`: what is left when the record is not compared.
  abbrev pub at_pressure : Number → TurnPlan → TurnPlan
  at_pressure z p = record p { quota_pressure = z }

  module _ (z : Number) (cfg : AdaptiveEffortCfg) (p : TurnPlan) where
    confirm-at_pressure :
        (m : Move) (to : Option String) (seen : ℕ) (why : Reason)
        → confirm cfg (at_pressure z p) m to seen why ≡ at_pressure z (confirm cfg p m to seen why)
    unfolding confirm change
    confirm-at_pressure m to seen why = ground arith

  module _ (z : Number) (cfg : AdaptiveEffortCfg) (p : TurnPlan) where
    settle-at_pressure :
        (at bottom : ℕ) (m : Move) (want : ℕ) (to : Option String)
        (recommendations : List (Option String))
        → settle cfg (at_pressure z p) at bottom m want to recommendations
          ≡ at_pressure z (settle cfg p at bottom m want to recommendations)
    unfolding settle confirm change
    settle-at_pressure at bottom m want to recommendations = ground arith

    plan_move-at_pressure :
        (at bottom : ℕ) (recommendations : List (Option String)) (o : Option Move)
        → plan_move cfg (at_pressure z p) at bottom recommendations o
          ≡ at_pressure z (plan_move cfg p at bottom recommendations o)
    unfolding plan_move
    plan_move-at_pressure at bottom recommendations none = refl
    plan_move-at_pressure at bottom recommendations (some m) =
        settle-at_pressure at bottom m _ _ recommendations

    plan_checked-at_pressure :
        (broken : Bool) (ms : List Answer) (q q' : TurnPlan)
        → q' ≡ at_pressure z q
        → plan_checked (at_pressure z p) broken ms q' ≡ at_pressure z (plan_checked p broken ms q)
    unfolding plan_checked
    plan_checked-at_pressure true ms q q' e = refl
    plan_checked-at_pressure false (a ∷ rest) q q' e = refl
    plan_checked-at_pressure false [] q q' e = e

  choose_move-argued :
      (cfg : AdaptiveEffortCfg) (rungs : List String) (at bottom : ℕ) (e : Evidence)
      (protected : Bool) (x y : Number)
      → (upward e cfg.thresholds ≢ none) ⊎ (wants_less e cfg.thresholds ≡ true)
      → choose_move cfg rungs at bottom e protected x
        ≡ choose_move cfg rungs at bottom e protected y
  unfolding choose_move
  choose_move-argued cfg rungs at bottom e protected x y h = ground arith

  module _ (cfg : AdaptiveEffortCfg) (p : TurnPlan) (z : Number)
      (argued : (upward p.evidence cfg.thresholds ≢ none)
        ⊎ (wants_less p.evidence cfg.thresholds ≡ true))
      (protected : Bool) (recommendations : List (Option String)) where
    plan_at-argued :
        (at : ℕ)
        → plan_at cfg (at_pressure z p) protected recommendations at
          ≡ at_pressure z (plan_at cfg p protected recommendations at)
    unfolding plan_at
    plan_at-argued at =
        let bottom = bottom_of p.ladder p.floor in
        let o = choose_move cfg p.ladder at bottom p.evidence protected p.quota_pressure in
        plan_checked-at_pressure z cfg p (not (str_eq p.evidence.error "")) (missing p.evidence)
          (plan_move cfg p at bottom recommendations o)
          (plan_move cfg (at_pressure z p) at bottom recommendations
            (choose_move cfg p.ladder at bottom p.evidence protected z))
          (ap (plan_move cfg (at_pressure z p) at bottom recommendations) (
              choose_move-argued cfg p.ladder at bottom p.evidence protected z p.quota_pressure
                argued)
            ∙ plan_move-at_pressure z cfg p at bottom recommendations o)

    plan_on-argued :
        (o : Option ℕ)
        → plan_on cfg (at_pressure z p) protected recommendations o
          ≡ at_pressure z (plan_on cfg p protected recommendations o)
    unfolding plan_on
    plan_on-argued none = refl
    plan_on-argued (some at) = plan_at-argued at

  -- On a turn whose evidence argues for more or for less, the plan is the same under every
  -- pressure, but for the pressure that it records.
  pub plan_turn-ignores_pressure :
      (cfg : AdaptiveEffortCfg) (ladder : List String) (current base floor : Option String)
      (e : Evidence) (recommendations : List (Option String)) (x y z : Number) (protected : Bool)
      → (upward e cfg.thresholds ≢ none) ⊎ (wants_less e cfg.thresholds ≡ true)
      → at_pressure z (plan_turn cfg ladder current base floor e recommendations x protected)
        ≡ at_pressure z (plan_turn cfg ladder current base floor e recommendations y protected)
  unfolding plan_turn start
  plan_turn-ignores_pressure cfg ladder current base floor e recommendations x y z protected h =
      elim (Bool-cases (ltb (length ladder) 2)) [
        | inl short ↦ rw short
        | inr long ↦ rw long (
            sym (
              plan_on-argued cfg (start cfg ladder current base floor e x) z h protected
                recommendations (index_of? ladder current))
            ∙ plan_on-argued cfg (start cfg ladder current base floor e y) z h protected
                recommendations (index_of? ladder current))
      ]
