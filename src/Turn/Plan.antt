-- ===== src/Turn/Plan.antt =====
-- The plan for one turn (`plan_turn` of src/jev_router/effort.py). A reason is a constructor with
-- what its text names; `change_effort` and the other actions are the code's words.
pub mod Changes
pub mod Moves
pub mod Confirmations
pub mod Quota
pub mod Kept
mod Tests
use jev_router.Common.{
  ℕ, zero, suc, ◌+◌, ◌-◌, max, Bool, true, false, not, ◌&&◌, String, str_eq, List, [], ◌∷◌, ◌++◌,
  reverse, Option, none, some, length, get_elem?, ltb, ◌==◌, contains, index_of?, opt_eq,
  if◌then◌else◌,
}
use jev_router.Common.Float.{Float, Number, ◌<=◌, ◌<<◌}
use jev_router.Config.Adaptive.{Upward, Downward, step, jump, EffortThresholds, AdaptiveEffortCfg}
use jev_router.Turn.Evidence.{Evidence, Answer, Subject, missing, upward, wants_less}
use jev_router.Turn.Target.{Note, Reached, target_index}

pub data Action : Type 0 where
  keep change_effort blocked : Action

pub data Direction : Type 0 where
  up down hold : Direction

-- The clause that argues for the move.
pub data Why : Type 0 where
  asks_more : Subject → Why
  low_risk : Why
  quota_pressure : Why

pub data Reason : Type 0 where
  undecided : Reason
  no_second_rung : Reason
  not_on_ladder : Option String → Reason
  classifier_error : String → Reason
  no_usable_answer : List Answer → Reason
  no_change_asked : Reason
  already_there : Why → Bool → Reason
  unconfirmed : Why → ℕ → ℕ → Reason
  moved : Why → Option Note → Reason
  reached : Note → Reason
  stopped : String → Reason

-- How often `effort` stands at the head of a list, newest first.
run_length : List (Option String) → Option String → ℕ
run_length [] effort = 0
run_length (v ∷ rest) effort =
    let n = suc (run_length rest effort) in if opt_eq v effort then n else 0

-- How many eligible turns in a row have now asked for this effort; the list is oldest first.
unfoldable pub confirmations_for : List (Option String) → Option String → ℕ
unfolding run_length
confirmations_for recommendations effort = run_length (reverse recommendations) effort

or_zero : Option ℕ → ℕ
or_zero none = 0
or_zero (some i) = i

-- The lowest rung a move may land on.
pub bottom_of : List String → Option String → ℕ
unfolding or_zero
bottom_of rungs floor = or_zero (index_of? rungs floor)

module _ ⦃f : Float⦄ where
  pub record TurnPlan : Type 0 where
    pub action : Action
    pub from_effort : Option String
    pub to_effort : Option String
    pub base_effort : Option String
    pub recommendation : Option String
    pub direction : Direction
    pub target : Option String
    pub target_reason : Option Note
    pub upward : Upward
    pub downward : Downward
    pub reason : Reason
    pub confirmations : ℕ
    pub needed_confirmations : ℕ
    pub floor : Option String
    pub ladder : List String
    pub thresholds : EffortThresholds
    pub evidence : Evidence
    pub quota_pressure : Number

  -- `max(0.0, min(1.0, pressure))`, with the operands in the order in which Python keeps the first
  unfoldable pub clamp_pressure : Number → Number
  clamp_pressure p =
      let one = f.decimal 1 0 in
      let zero' = f.decimal 0 0 in
      let lower = if p << one then p else one in if zero' << lower then lower else zero'

  -- The plan that every branch starts from.
  unfoldable pub start :
      AdaptiveEffortCfg
      → List String
      → Option String
      → Option String
      → Option String
      → Evidence
      → Number
      → TurnPlan
  start cfg ladder current base floor e pressure = record {
    action = keep;
    from_effort = current;
    to_effort = current;
    base_effort = base;
    recommendation = current;
    direction = hold;
    target = none;
    target_reason = none;
    upward = cfg.upward;
    downward = cfg.downward;
    reason = undecided;
    confirmations = 0;
    needed_confirmations = if cfg.hysteresis then cfg.downgrade_confirmations else 1;
    floor = floor;
    ladder = ladder;
    thresholds = cfg.thresholds;
    evidence = e;
    quota_pressure = clamp_pressure pressure;
  }

  -- What the evidence or the pressure asks for, before the floor: `want`, `direction`, `why`, and
  -- the `target` and `target_reason` that the plan records.
  pub record Move : Type 0 where
    pub want : ℕ
    pub direction : Direction
    pub why : Why
    pub target : Option String
    pub note : Option Note

  raise_to : List String → Subject → Reached → Move
  raise_to rungs s r = record {
    want = r.want;
    direction = up;
    why = asks_more s;
    target = get_elem? rungs r.want;
    note = r.note;
  }

  -- `at - 1` is -1 in the code where `at` is 0; the `max` with `bottom` gives the same number.
  lower_to : Downward → ℕ → ℕ → ℕ
  lower_to step at bottom = max (at - 1) bottom
  lower_to jump at bottom = max bottom bottom

  pub choose_move : AdaptiveEffortCfg → List String → ℕ → ℕ → Evidence → Bool → Number → Option Move
  unfolding raise_to lower_to
  choose_move cfg rungs at bottom e protected pressure = elim (upward e cfg.thresholds) [
    | some s ↦ some (raise_to rungs s (target_index e cfg rungs at protected))
    | none ↦
        if wants_less e cfg.thresholds
        then some (record {
          want = lower_to cfg.downward at bottom;
          direction = down;
          why = low_risk;
          target = get_elem? rungs (lower_to cfg.downward at bottom);
          note = none;
        })
        else if cfg.thresholds.quota_pressure_at <= pressure
        then some (record {
          want = max (at - 1) bottom;
          direction = down;
          why = quota_pressure;
          target = none;
          note = none;
        })
        else none
  ]

  is_down : Direction → Bool
  is_down down = true
  is_down _ = false

  -- The reason of a change; the move's own note stands in it where the move skipped a rung.
  note_subject : Subject → Note → Bool
  note_subject Subject.difficulty (Note.difficulty_asks _) = true
  note_subject Subject.p_hard Note.p_hard_asks = true
  note_subject Subject.corrective (Note.corrective_asks _) = true
  note_subject _ _ = false

  -- `skipped` says that the move passed a rung by.
  moved_reason : Why → Option Note → Bool → Reason
  unfolding note_subject
  moved_reason (asks_more s) (some n) true =
      if note_subject s n then reached n else moved (asks_more s) (some n)
  moved_reason w _ _ = moved w none

  change : TurnPlan → Option String → Reason → TurnPlan
  change p to why = record p { action = change_effort; to_effort = to; reason = why }

  -- A downward move waits for its confirmations.
  confirm : AdaptiveEffortCfg → TurnPlan → Move → Option String → ℕ → Reason → TurnPlan
  unfolding change is_down
  confirm cfg p m to seen why =
      if is_down m.direction && cfg.hysteresis
      then (if ltb seen cfg.downgrade_confirmations
          then record p {
            confirmations = seen;
            reason = unconfirmed m.why seen cfg.downgrade_confirmations;
          }
          else change (record p { confirmations = seen }) to why)
      else if is_down m.direction
      then change (record p { confirmations = 1 }) to why
      else change p to why

  -- From the chosen move to the plan: the floor, the rung already held, the confirmations. `want`
  -- is the index after the floor and `to` the rung that stands there.
  settle :
      AdaptiveEffortCfg
      → TurnPlan
      → ℕ
      → ℕ
      → Move
      → ℕ
      → Option String
      → List (Option String)
      → TurnPlan
  settle cfg p at bottom m want to recommendations =
      let same = opt_eq to p.from_effort in
      let p' : TurnPlan = record p {
        target = m.target;
        target_reason = m.note;
        recommendation = to;
        direction = if same then hold else m.direction;
      } in
      if same
      then record p' { reason = already_there m.why (want == bottom) }
      else confirm cfg p' m to (confirmations_for (recommendations ++ to ∷ []) to)
          (moved_reason m.why m.note (ltb (at + 1) want))

  -- Broken or missing evidence keeps the effort; `q` is the plan of a turn that has it all.
  plan_checked : TurnPlan → Bool → List Answer → TurnPlan → TurnPlan
  plan_checked p true _ q = record p { reason = classifier_error p.evidence.error }
  plan_checked p false (a ∷ rest) q = record p { reason = no_usable_answer (a ∷ rest) }
  plan_checked p false [] q = q

  plan_move : AdaptiveEffortCfg → TurnPlan → ℕ → ℕ → List (Option String) → Option Move → TurnPlan
  plan_move cfg p at bottom recommendations none = record p { reason = no_change_asked }
  plan_move cfg p at bottom recommendations (some m) =
      settle cfg p at bottom m (max m.want bottom) (get_elem? p.ladder (max m.want bottom))
        recommendations

  -- The turn from the point where the current rung is known.
  plan_at : AdaptiveEffortCfg → TurnPlan → Bool → List (Option String) → ℕ → TurnPlan
  plan_at cfg p protected recommendations at =
      plan_checked p (not (str_eq p.evidence.error "")) (missing p.evidence) (
        plan_move cfg p at (bottom_of p.ladder p.floor) recommendations (
          choose_move cfg p.ladder at (bottom_of p.ladder p.floor) p.evidence protected
            p.quota_pressure))

  plan_on : AdaptiveEffortCfg → TurnPlan → Bool → List (Option String) → Option ℕ → TurnPlan
  plan_on cfg p protected recommendations none = record p { reason = not_on_ladder p.from_effort }
  plan_on cfg p protected recommendations (some at) = plan_at cfg p protected recommendations at

  pub plan_turn :
      AdaptiveEffortCfg
      → List String
      → Option String
      → Option String
      → Option String
      → Evidence
      → List (Option String)
      → Number
      → Bool
      → TurnPlan
  plan_turn cfg ladder current base floor e recommendations pressure protected =
      let p = start cfg ladder current base floor e pressure in
      if ltb (length ladder) 2
      then record p { reason = no_second_rung }
      else plan_on cfg p protected recommendations (index_of? ladder current)

  -- Stop a plan without losing what it was going to say.
  unfoldable pub blocked_plan : TurnPlan → String → TurnPlan
  blocked_plan p why = record p {
    action = blocked;
    to_effort = p.from_effort;
    reason = stopped why;
  }
