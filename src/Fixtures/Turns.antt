-- ===== src/Fixtures/Turns.antt =====
-- The shipped thresholds and targets of the between-turn policy (src/jev_router/config.py).
use jev_router.Common.{ℕ, true, false, [], ◌∷◌, none, some}
use jev_router.Fixtures.{fixed}
use jev_router.Config.Adaptive.{AdaptiveEffortCfg, Mode, Upward, Downward}
use jev_router.Turn.Evidence.{Evidence}

abbrev pub cfg : AdaptiveEffortCfg
cfg = record {
  mode = Mode.active;
  qualified_profiles = [];
  downgrade_confirmations = 2;
  hysteresis = true;
  ladder = "low" ∷ "medium" ∷ "high" ∷ [];
  ladders = [];
  thresholds = record {
    upgrade_difficulty = 18000;
    upgrade_harm = 6000;
    upgrade_p_hard = 4000;
    corrective_followup = 6000;
    downgrade_difficulty = 8000;
    downgrade_harm = 2000;
    quota_pressure_at = 6000;
    context_safety_fraction = 8000;
  };
  upward = Upward.jump;
  downward = Downward.step;
  targets = record {
    difficulty = ("medium", 18000) ∷ ("high", 26000) ∷ [];
    p_hard_top = 6000;
    corrective_rung = "top";
    protected_rung = "top";
  };
  questions = [];
  shadow_questions = [];
}

abbrev evidence : ℕ → ℕ → Evidence
evidence difficulty harm = record {
  difficulty = some difficulty;
  p_hard = none;
  harm_if_wrong = some harm;
  corrective_followup = none;
  failure_mode = none;
  short_continuation = false;
  error = "";
}

-- A clearly hard turn.
abbrev pub hard : Evidence
hard = evidence 29500 1000

-- A clearly easy one.
abbrev pub easy : Evidence
easy = evidence 5000 1000
