-- ===== src/Turn/Plan/Moves.antt =====
-- What `plan_turn` of src/jev_router/effort.py may change, and on which evidence.
use mathlib.Core.Bool.{false≢true}
use jev_router.Common.{
  ℕ, suc, ◌+◌, ◌-◌, ◌≤◌, ◌<◌, min, max, ◌≡◌, ◌≢◌, ◌⊎◌, refl, sym, ◌∙◌, ap, str_eq_iff,
  get_elem?-index_of, Bool, true, false, String, List, [], ◌∷◌, ◌++◌, Option, none, some, arith,
  length, get_elem?, index_of?, opt_eq, index_of-lt, get_elem?-some,
}
use jev_router.Common.Float.{Float, Number, ◌<=◌}
use jev_router.Config.Adaptive.{AdaptiveEffortCfg, Downward}
use jev_router.Turn.Evidence.{Evidence, upward, wants_less}
use jev_router.Turn.Target.{target_index}
use jev_router.Turn.Target.Reach.{target_index_bounds}
use jev_router.Turn.Plan.{
  TurnPlan, Move, up, down, change_effort, start, plan_turn, choose_move, bottom_of, or_zero,
  confirmations_for, clamp_pressure,
}
use jev_router.Turn.Plan.Changes.{plan_turn-change}

index_of?-lt :
    (xs : List String) (a : Option String) (i : ℕ) → index_of? xs a ≡ some i → i < length xs
unfolding index_of?
index_of?-lt xs none i h = cc
index_of?-lt xs (some a) i h = index_of-lt xs a i h

opt_eq_refl : (a : Option String) → opt_eq a a ≡ true
unfolding opt_eq
opt_eq_refl none = refl
opt_eq_refl (some a) = ground (arith, str_eq_iff a a)

get_elem?-index_of? :
    (xs : List String) (a : Option String) (i : ℕ) → index_of? xs a ≡ some i → get_elem? xs i ≡ a
unfolding index_of?
get_elem?-index_of? xs none i h = cc
get_elem?-index_of? xs (some a) i h = get_elem?-index_of xs a i h

-- A rung that differs from the current one does not stand at its index.
ne_of_moves :
    (xs : List String) (a : Option String) (i w : ℕ)
    → index_of? xs a ≡ some i
    → opt_eq (get_elem? xs w) a ≡ false
    → w ≢ i
ne_of_moves xs a i w here moves same = false≢true (
    sym moves
    ∙ ap (λ j. opt_eq (get_elem? xs j) a) same
    ∙ rw (get_elem?-index_of? xs a i here) (opt_eq_refl a))

or_zero-lt : (o : Option ℕ) (n : ℕ) → ((i : ℕ) → o ≡ some i → i < n) → 0 < n → or_zero o < n
unfolding or_zero
or_zero-lt none n all h = h
or_zero-lt (some i) n all h = all i refl

bottom_of-lt :
    (rungs : List String) (floor : Option String)
    → 0 < length rungs
    → bottom_of rungs floor < length rungs
unfolding bottom_of
bottom_of-lt rungs floor h =
    or_zero-lt (index_of? rungs floor) (length rungs) (index_of?-lt rungs floor) h

module _ ⦃f : Float⦄ where
  module _ (cfg : AdaptiveEffortCfg) (rungs : List String) (at bottom : ℕ) (e : Evidence)
      (protected : Bool) (pressure : Number) (m : Move)
      (chosen : choose_move cfg rungs at bottom e protected pressure ≡ some m) where
    choose_move-lt : at < length rungs → bottom < length rungs → m.want < length rungs
    unfolding choose_move
    choose_move-lt h k = ground (arith, target_index_bounds e cfg rungs at protected)

    -- The evidence decides the direction, and upward evidence goes a rung up at least.
    choose_move-up :
        upward e cfg.thresholds ≢ none
        → (m.direction ≡ up)
          × (min (at + 1) (length rungs - 1) ≤ m.want)
          × (m.want ≡ (target_index e cfg rungs at protected).want)
    unfolding choose_move
    choose_move-up h = ground (arith, target_index_bounds e cfg rungs at protected)

    choose_move-down :
        upward e cfg.thresholds ≡ none
        → (m.direction ≡ down)
          × ((wants_less e cfg.thresholds ≡ true)
              ⊎ ((cfg.thresholds.quota_pressure_at <= pressure) ≡ true))
          × (cfg.downward ≡ Downward.step → m.want ≡ max (at - 1) bottom)
          × (m.want ≤ max (at - 1) bottom)
    unfolding choose_move
    choose_move-down h = ground arith

  falls :
      (at bottom : ℕ) {w : ℕ}
      → max w bottom ≢ at
      → w ≡ max (at - 1) bottom
      → bottom ≤ at
      → suc (max w bottom) ≡ at
  falls at bottom differs one above = omega arith

  rises :
      (at bottom : ℕ) {w n : ℕ}
      → max w bottom ≢ at
      → at < n
      → min (at + 1) (n - 1) ≤ w
      → at < max w bottom
  rises at bottom differs fits far = omega arith

  module _ (cfg : AdaptiveEffortCfg) (ladder : List String) (current base floor : Option String)
      (e : Evidence) (recommendations : List (Option String)) (pressure : Number)
      (protected : Bool) where
    abbrev planned : TurnPlan
    planned = plan_turn cfg ladder current base floor e recommendations pressure protected

    -- A change lands on a rung of the ladder, never below the floor, and not on the rung held.
    pub plan_turn-in_bounds :
        planned.action ≡ change_effort
        → (w : ℕ) × (rung : String) × (get_elem? ladder w ≡ some rung)
          × (planned.to_effort ≡ some rung)
          × (planned.recommendation ≡ some rung)
          × (bottom_of ladder floor ≤ w)
          × (opt_eq (some rung) current ≡ false)
    unfolding start
    plan_turn-in_bounds h =
        let (at, m, here, c) =
          plan_turn-change cfg ladder current base floor e recommendations pressure protected h in
        let bottom = bottom_of ladder floor in
        let fits = index_of?-lt ladder current at here in
        let low = bottom_of-lt ladder floor (omega arith) in
        let want = choose_move-lt cfg ladder at bottom e protected _ m c.chosen fits low in
        let (rung, stands) = get_elem?-some ladder (max m.want bottom) (omega arith) in
        let lands = c.lands ∙ stands in
        (
          max m.want bottom,
          rung,
          stands,
          lands,
          c.recommends ∙ lands,
          omega arith,
          rw (← lands) c.moves,
        )

    -- Where the evidence argues for more, a change goes up: from rung `at` to a higher one, as
    -- far as the evidence and the floor ask and no further.
    pub plan_turn-upward :
        planned.action ≡ change_effort
        → upward e cfg.thresholds ≢ none
        → (at : ℕ) × (w : ℕ) × (index_of? ladder current ≡ some at)
          × (get_elem? ladder w ≡ planned.to_effort)
          × (planned.direction ≡ up)
          × (at < w)
          × (w ≡ max (target_index e cfg ladder at protected).want (bottom_of ladder floor))
    unfolding start
    plan_turn-upward h asks =
        let (at, m, here, c) =
          plan_turn-change cfg ladder current base floor e recommendations pressure protected h in
        let bottom = bottom_of ladder floor in
        let (heads, far, want) =
          choose_move-up cfg ladder at bottom e protected _ m c.chosen asks in
        (
          at,
          max m.want bottom,
          here,
          sym c.lands,
          c.heading ∙ heads,
          rises at bottom (ne_of_moves ladder current at _ here (rw (← c.lands) c.moves))
              (index_of?-lt ladder current at here) far,
          rw want,
        )

    -- Where nothing argues for more, a change rests on low-risk evidence or on the provider's
    -- pressure, has its confirmations under hysteresis, and goes one rung down under `step`,
    -- unless the floor is above the rung held.
    pub plan_turn-downward :
        planned.action ≡ change_effort
        → upward e cfg.thresholds ≡ none
        → (at : ℕ) × (w : ℕ) × (index_of? ladder current ≡ some at)
          × (get_elem? ladder w ≡ planned.to_effort)
          × (planned.direction ≡ down)
          × ((wants_less e cfg.thresholds ≡ true)
              ⊎ ((cfg.thresholds.quota_pressure_at <= clamp_pressure pressure) ≡ true))
          × (cfg.hysteresis ≡ true
              → cfg.downgrade_confirmations
                ≤ confirmations_for (recommendations ++ planned.to_effort ∷ []) planned.to_effort)
          × (cfg.downward ≡ Downward.step → bottom_of ladder floor ≤ at → suc w ≡ at)
    unfolding start
    plan_turn-downward h calm =
        let (at, m, here, c) =
          plan_turn-change cfg ladder current base floor e recommendations pressure protected h in
        let bottom = bottom_of ladder floor in
        let (heads, because, one, low) =
          choose_move-down cfg ladder at bottom e protected _ m c.chosen calm in
        (
          at,
          max m.want bottom,
          here,
          sym c.lands,
          c.heading ∙ heads,
          because,
          c.confirmed heads,
          λ steps above.
              falls at bottom (ne_of_moves ladder current at _ here (rw (← c.lands) c.moves))
                (one steps) above,
        )
