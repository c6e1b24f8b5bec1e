-- ===== src/Config/Adaptive.antt =====
-- The between-turn effort experiment's configuration (src/jev_router/config.py): thresholds,
-- target rungs and switches. A string of a fixed set of words is a constructor.
use jev_router.Common.{ℕ, Bool, String, List, [], Option, none, some, lookup}
use jev_router.Common.Float.{Float, Number}

pub data Mode : Type 0 where
  off shadow active : Mode

pub data Upward : Type 0 where
  jump step : Upward

pub data Downward : Type 0 where
  step jump : Downward

module _ ⦃f : Float⦄ where
  pub record EffortThresholds : Type 0 where
    pub upgrade_difficulty : Number
    pub upgrade_harm : Number
    pub upgrade_p_hard : Number
    pub corrective_followup : Number
    pub downgrade_difficulty : Number
    pub downgrade_harm : Number
    pub quota_pressure_at : Number
    pub context_safety_fraction : Number

  pub record EffortTargets : Type 0 where
    pub difficulty : List (String × Number)
    pub p_hard_top : Number
    pub corrective_rung : String
    pub protected_rung : String

  pub record AdaptiveEffortCfg : Type 0 where
    pub mode : Mode
    pub qualified_profiles : List String
    pub downgrade_confirmations : ℕ
    pub hysteresis : Bool
    pub ladder : List String
    pub ladders : List (String × List String)
    pub thresholds : EffortThresholds
    pub upward : Upward
    pub downward : Downward
    pub targets : EffortTargets
    pub questions : List String
    pub shadow_questions : List String

  -- `self.ladders.get(model_key) or self.ladder`: an empty list counts as absent
  or_ladder : Option (List String) → List String → List String
  or_ladder none default = default
  or_ladder (some []) default = default
  or_ladder (some rungs) default = rungs

  unfoldable pub ladder_for : AdaptiveEffortCfg → String → List String
  unfolding or_ladder lookup
  ladder_for c model_key = or_ladder (lookup model_key c.ladders) c.ladder
