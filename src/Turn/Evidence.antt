-- ===== src/Turn/Evidence.antt =====
-- What one turn is known to be, and what it argues for (src/jev_router/effort.py). The clause of a
-- reason is its subject: the text is determined by it, the evidence and the thresholds.
use jev_router.Common.{
  Bool, false, not, ◌&&◌, ◌||◌, String, str_eq, List, [], ◌∷◌, ◌++◌, Option, none, some,
  if◌then◌else◌,
}
use jev_router.Common.Float.{Float, Number, ◌<=◌, ◌<<◌}
use jev_router.Config.Adaptive.{EffortThresholds}

pub data Answer : Type 0 where
  difficulty harm_if_wrong : Answer

-- What argues for more effort, in the order in which it is looked for.
pub data Subject : Type 0 where
  difficulty p_hard harm corrective : Subject

-- A failure the work itself cannot reason its way out of.
unfoldable pub not_a_reasoning_problem : Option String → Bool
not_a_reasoning_problem none = false
not_a_reasoning_problem (some mode) =
    str_eq mode "environment_problem" || str_eq mode "missing_information"

module _ ⦃f : Float⦄ where
  pub record Evidence : Type 0 where
    pub difficulty : Option Number
    pub p_hard : Option Number
    pub harm_if_wrong : Option Number
    pub corrective_followup : Option Number
    pub failure_mode : Option String
    pub short_continuation : Bool
    pub error : String

  -- `x is not None and x >= at`
  abbrev pub reaches : Option Number → Number → Bool
  reaches none at = false
  reaches (some x) at = at <= x

  -- `x is None or x > at`, negated: the value is there and at or below `at`
  abbrev pub within : Option Number → Number → Bool
  within none at = false
  within (some x) at = not (at << x)

  unfoldable pub absent : Answer → Option Number → List Answer
  absent a none = a ∷ []
  absent a (some x) = []

  -- The answers the policy needs and did not get.
  unfoldable pub missing : Evidence → List Answer
  unfolding absent
  missing e = absent Answer.difficulty e.difficulty ++ absent Answer.harm_if_wrong e.harm_if_wrong

  -- `corrective_followup < t.corrective_followup` is the test the code makes
  followup_names_defect : Option Number → Number → Bool
  followup_names_defect none at = false
  followup_names_defect (some x) at = not (x << at)

  unfoldable pub is_corrective : Evidence → EffortThresholds → Bool
  unfolding followup_names_defect not_a_reasoning_problem
  is_corrective e t =
      followup_names_defect e.corrective_followup t.corrective_followup
      && not (not_a_reasoning_problem e.failure_mode)

  unfoldable pub upward : Evidence → EffortThresholds → Option Subject
  unfolding is_corrective
  upward e t =
      if reaches e.difficulty t.upgrade_difficulty
      then some Subject.difficulty
      else if reaches e.p_hard t.upgrade_p_hard
      then some Subject.p_hard
      else if reaches e.harm_if_wrong t.upgrade_harm
      then some Subject.harm
      else if is_corrective e t
      then some Subject.corrective
      else none

  unfoldable pub wants_less : Evidence → EffortThresholds → Bool
  wants_less e t =
      not e.short_continuation
      && within e.difficulty t.downgrade_difficulty
      && within e.harm_if_wrong t.downgrade_harm
      && not (reaches e.corrective_followup t.corrective_followup)
