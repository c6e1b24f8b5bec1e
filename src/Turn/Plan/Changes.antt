-- ===== src/Turn/Plan/Changes.antt =====
-- What a plan that changes the effort went through (`plan_turn` of src/jev_router/effort.py).
use jev_router.Common.{
  ℕ, ◌+◌, ◌≤◌, max, ◌≡◌, refl, sym, ◌∙◌, not, Bool, true, false, String, str_eq, List, [], ◌∷◌,
  ◌++◌, Option, none, some, arith, length, get_elem?, ltb, index_of?, opt_eq, Bool-cases, inl, inr,
}
use jev_router.Common.Float.{Float, Number}
use jev_router.Config.Adaptive.{AdaptiveEffortCfg}
use jev_router.Turn.Evidence.{Evidence, Answer, missing}
use jev_router.Turn.Plan.{
  TurnPlan, Move, Action, Reason, change_effort, down, start, plan_turn, plan_at, settle, confirm,
  change, is_down, choose_move, bottom_of, confirmations_for, plan_checked, plan_move, plan_on,
  moved_reason,
}

module _ ⦃f : Float⦄ where
  not-false : {b : Bool} → not b ≡ false → b ≡ true
  not-false {b} h = ground arith

  -- A change passed every guard, and lands on the rung that its move and the floor name.
  pub record Changed (cfg : AdaptiveEffortCfg) (p : TurnPlan) (protected : Bool)
      (recommendations : List (Option String)) (at : ℕ) (m : Move) (q : TurnPlan) : Type 0 where
    pub no_error : str_eq p.evidence.error "" ≡ true
    pub no_missing : missing p.evidence ≡ []
    pub chosen :
        choose_move cfg p.ladder at
          (bottom_of p.ladder p.floor)
          p.evidence
          protected
          p.quota_pressure
        ≡ some m
    pub lands : q.to_effort ≡ get_elem? p.ladder (max m.want (bottom_of p.ladder p.floor))
    pub recommends : q.recommendation ≡ q.to_effort
    pub moves : opt_eq q.to_effort p.from_effort ≡ false
    pub heading : q.direction ≡ m.direction
    pub confirmed :
        m.direction ≡ down
        → cfg.hysteresis ≡ true
        → cfg.downgrade_confirmations
          ≤ confirmations_for (recommendations ++ q.to_effort ∷ []) q.to_effort

  module _ (cfg : AdaptiveEffortCfg) (p : TurnPlan) (keeping : p.action ≡ Action.keep) (m : Move)
      (to : Option String) (seen : ℕ) (why : Reason) where
    confirm-change :
        (confirm cfg p m to seen why).action ≡ change_effort
        → ((confirm cfg p m to seen why).to_effort ≡ to)
          × ((confirm cfg p m to seen why).recommendation ≡ p.recommendation)
          × ((confirm cfg p m to seen why).direction ≡ p.direction)
          × (m.direction ≡ down → cfg.hysteresis ≡ true → cfg.downgrade_confirmations ≤ seen)
    unfolding confirm is_down change
    confirm-change h = ground arith

  settle-change :
      (cfg : AdaptiveEffortCfg) (p : TurnPlan) (at bottom : ℕ) (m : Move) (want : ℕ)
      (to : Option String) (recommendations : List (Option String))
      → p.action ≡ Action.keep
      → (settle cfg p at bottom m want to recommendations).action ≡ change_effort
      → let q = settle cfg p at bottom m want to recommendations in
        (q.to_effort ≡ to)
        × (q.recommendation ≡ to)
        × (opt_eq to p.from_effort ≡ false)
        × (q.direction ≡ m.direction)
        × (m.direction ≡ down
            → cfg.hysteresis ≡ true
            → cfg.downgrade_confirmations ≤ confirmations_for (recommendations ++ to ∷ []) to)
  unfolding settle
  settle-change cfg p at bottom m want to recommendations keeping h = ground (
    arith,
    confirm-change cfg
        (record p {
          target = m.target;
          target_reason = m.note;
          recommendation = to;
          direction = m.direction;
        })
        keeping m to (confirmations_for (recommendations ++ to ∷ []) to)
        (moved_reason m.why m.note (ltb (at + 1) want)),
  )

  plan_checked-change :
      (p : TurnPlan) (broken : Bool) (ms : List Answer) (q : TurnPlan)
      → p.action ≡ Action.keep
      → (plan_checked p broken ms q).action ≡ change_effort
      → (broken ≡ false) × (ms ≡ []) × (plan_checked p broken ms q ≡ q)
  unfolding plan_checked
  plan_checked-change p true ms q keeping h = cc
  plan_checked-change p false (a ∷ rest) q keeping h = cc
  plan_checked-change p false [] q keeping h = (refl, refl, refl)

  plan_move-change :
      (cfg : AdaptiveEffortCfg) (p : TurnPlan) (at bottom : ℕ)
      (recommendations : List (Option String)) (o : Option Move)
      → p.action ≡ Action.keep
      → (plan_move cfg p at bottom recommendations o).action ≡ change_effort
      → (m : Move) × (o ≡ some m)
        × (plan_move cfg p at bottom recommendations o
            ≡ settle cfg p at bottom m
                (max m.want bottom)
                (get_elem? p.ladder (max m.want bottom))
                recommendations)
  unfolding plan_move
  plan_move-change cfg p at bottom recommendations none keeping h = cc
  plan_move-change cfg p at bottom recommendations (some m) keeping h = (m, refl, refl)

  module _ (cfg : AdaptiveEffortCfg) (p : TurnPlan) (protected : Bool)
      (recommendations : List (Option String)) (at : ℕ) where
    plan_at-change :
        p.action ≡ Action.keep
        → (plan_at cfg p protected recommendations at).action ≡ change_effort
        → (m : Move) × Changed cfg p protected recommendations at m
            (plan_at cfg p protected recommendations at)
    unfolding plan_at
    plan_at-change keeping h =
        let bottom = bottom_of p.ladder p.floor in
        let o = choose_move cfg p.ladder at bottom p.evidence protected p.quota_pressure in
        let (clean, whole, same) =
          plan_checked-change p (not (str_eq p.evidence.error "")) (missing p.evidence)
            (plan_move cfg p at bottom recommendations o) keeping h in
        let (m, chosen, settled) =
          plan_move-change cfg p at bottom recommendations o keeping (rw same at h) in
        let e : plan_at cfg p protected recommendations at
            ≡ settle cfg p at bottom m (max m.want bottom) (get_elem? p.ladder (max m.want bottom))
                recommendations =
          same ∙ settled in
        let (lands, recommends, moves, heading, confirmed) =
          settle-change cfg p at bottom m (max m.want bottom)
            (get_elem? p.ladder (max m.want bottom)) recommendations keeping (rw e at h) in
        (
          m,
          record {
            no_error = not-false clean;
            no_missing = whole;
            chosen = chosen;
            lands = rw e lands;
            recommends = rw e (recommends ∙ sym lands);
            moves = rw (e, lands) moves;
            heading = rw e heading;
            confirmed = rw (e, lands) confirmed;
          },
        )

  plan_on-change :
      (cfg : AdaptiveEffortCfg) (p : TurnPlan) (protected : Bool)
      (recommendations : List (Option String)) (o : Option ℕ)
      → p.action ≡ Action.keep
      → (plan_on cfg p protected recommendations o).action ≡ change_effort
      → (at : ℕ) × (m : Move) × (o ≡ some at)
        × Changed cfg p protected recommendations at m (plan_on cfg p protected recommendations o)
  unfolding plan_on
  plan_on-change cfg p protected recommendations none keeping h = cc
  plan_on-change cfg p protected recommendations (some at) keeping h =
      let (m, c) = plan_at-change cfg p protected recommendations at keeping h in (at, m, refl, c)

  module _ (cfg : AdaptiveEffortCfg) (ladder : List String) (current base floor : Option String)
      (e : Evidence) (recommendations : List (Option String)) (pressure : Number)
      (protected : Bool) where
    pub plan_turn-change :
        let q = plan_turn cfg ladder current base floor e recommendations pressure protected in
        q.action ≡ change_effort
        → (at : ℕ) × (m : Move) × (index_of? ladder current ≡ some at)
          × Changed cfg
              (start cfg ladder current base floor e pressure)
              protected
              recommendations
              at
              m
              q
    unfolding plan_turn start
    plan_turn-change h = elim (Bool-cases (ltb (length ladder) 2)) [
      | inl short ↦ absurd (keeps_short (rw short at h))
      | inr long ↦ rw long (
          plan_on-change cfg (start cfg ladder current base floor e pressure) protected
            recommendations (index_of? ladder current) refl (rw long at h))
    ]
      where
        keeps_short : Action.keep ≡ change_effort → ⊥
        keeps_short k = cc
