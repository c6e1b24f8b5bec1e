-- ===== src/Turn/Target.antt =====
-- How far up a turn's evidence reaches (`_target_index` of src/jev_router/effort.py).
pub mod Reach
use jev_router.Common.{
  ℕ, ◌+◌, ◌-◌, min, Bool, String, str_eq, List, [], ◌∷◌, Option, none, some, length, ltb, index_of,
  if◌then◌else◌,
}
use jev_router.Common.Float.{Float, Number}
use jev_router.Config.Adaptive.{
  Upward, jump, step, EffortThresholds, EffortTargets, AdaptiveEffortCfg,
}
use jev_router.Turn.Evidence.{Evidence, reaches, is_corrective}

-- The rule that reached furthest, which is what `subject` and `note` of the code say.
pub data Note : Type 0 where
  difficulty_asks : String → Note
  p_hard_asks : Note
  corrective_asks : String → Note
  protected_asks : String → Note

-- The index a target name points at, or nothing.
unfoldable pub named_rung : List String → String → Option ℕ
named_rung rungs name = if str_eq name "top" then some (length rungs - 1) else index_of rungs name

-- The `want` and `note` that the inner function `reach` changes.
pub record Reached : Type 0 where
  pub want : ℕ
  pub note : Option Note

unfoldable pub reach : Option ℕ → Note → Reached → Reached
reach none why r = r
reach (some i) why r = if ltb r.want i then record { want = i; note = some why } else r

-- A `reach` under an `if`.
abbrev pub reach_if : Bool → Option ℕ → Note → Reached → Reached
reach_if asked i why r = if asked then reach i why r else r

module _ ⦃f : Float⦄ where
  -- The loop over `targets.difficulty.items()`.
  unfoldable pub reach_rungs : Evidence → List String → List (String × Number) → Reached → Reached
  reach_rungs e rungs [] r = r
  reach_rungs e rungs ((rung, entry) ∷ rest) r =
      reach_rungs e rungs rest
        (reach_if (reaches e.difficulty entry) (index_of rungs rung) (Note.difficulty_asks rung) r)

  -- What `p_hard`, a corrective message and a protected session ask for.
  unfoldable pub reach_named :
      Evidence → EffortThresholds → EffortTargets → List String → Bool → Reached → Reached
  reach_named e t targets rungs protected r =
      reach_if protected (named_rung rungs targets.protected_rung)
        (Note.protected_asks targets.protected_rung)
        (reach_if (is_corrective e t) (named_rung rungs targets.corrective_rung)
          (Note.corrective_asks targets.corrective_rung)
          (reach_if (reaches e.p_hard targets.p_hard_top) (some (length rungs - 1)) Note.p_hard_asks
            r))

  -- `rungs` has two entries at least, so `len(rungs) - 1` is not negative.
  one_more : List String → ℕ → ℕ
  one_more rungs at = min (at + 1) (length rungs - 1)

  cap_top : List String → Reached → Reached
  cap_top rungs r = record r { want = min r.want (length rungs - 1) }

  target_by : Upward → Evidence → AdaptiveEffortCfg → List String → ℕ → Bool → Reached
  unfolding one_more cap_top
  target_by step e cfg rungs at protected = record { want = one_more rungs at; note = none }
  target_by jump e cfg rungs at protected = cap_top rungs (
      reach_named e cfg.thresholds cfg.targets rungs protected (
        reach_rungs e rungs cfg.targets.difficulty
          (record { want = one_more rungs at; note = none })))

  unfoldable pub target_index : Evidence → AdaptiveEffortCfg → List String → ℕ → Bool → Reached
  unfolding target_by
  target_index e cfg rungs at protected = target_by cfg.upward e cfg rungs at protected
