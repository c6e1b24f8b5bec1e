-- ===== src/Quota/Exhausted.antt =====
-- A window that has run out, and the word a reader is shown (`exhausted_window` and
-- `steering_label` of src/jev_router/quota.py).
pub mod Latest
pub mod Chosen
use jev_router.Common.{
  ◌≡◌, refl, subst, Bool, true, false, not, ◌||◌, inl, inr, List, [], ◌∷◌, Option, none, some, keep,
  if◌then◌else◌,
}
use jev_router.Common.Float.{Float, Number, ◌<=◌, ◌<<◌}
use jev_router.Config.Router.{QuotaPolicyCfg}
use jev_router.Quota.{
  Reading, fresh, QuotaWindow, QuotaSnapshot, percent, snapshot_status, whole_number,
}

pub data Label : Type 0 where
  calm elevated demoting exhausted : Label

unfoldable pub is_fresh : Reading → Bool
is_fresh fresh = true
is_fresh _ = false

module _ ⦃f : Float⦄ where
  -- What quota is doing to routing for this provider right now.
  unfoldable pub steering_label : Number → Reading → Bool → QuotaPolicyCfg → Bool → Option Label
  unfolding is_fresh
  steering_label pressure status is_exhausted knobs enabled =
      if not knobs.enabled || (not enabled || not (is_fresh status))
      then none
      else if is_exhausted
      then some exhausted
      else if knobs.demote_above << pressure
      then some demoting
      else if whole_number 0 << pressure
      then some elevated
      else some calm

  unfoldable pub summary_window : QuotaSnapshot → QuotaWindow
  summary_window snapshot = record {
    name = "";
    used_percent = snapshot.used_percent;
    used = none;
    limit = none;
    expected_used_percent = none;
    window_minutes = snapshot.window_minutes;
    resets_at = snapshot.resets_at;
  }

  -- `snapshot.windows or (the summary window,)`
  unfoldable pub windows_of : QuotaSnapshot → List QuotaWindow
  unfolding summary_window
  windows_of snapshot = elim snapshot.windows [
    | [] ↦ summary_window snapshot ∷ []
    | w ∷ ws ↦ w ∷ ws
  ]

  unfoldable pub reaches_mark : Number → Option Number → Bool
  reaches_mark mark none = false
  reaches_mark mark (some used) = mark <= used

  unfoldable pub is_spent : QuotaPolicyCfg → QuotaWindow → Bool
  unfolding percent reaches_mark
  is_spent knobs window = reaches_mark knobs.exhausted_at (percent window)

  -- An unknown reset counts as latest.
  unfoldable pub reset_key : QuotaWindow → Number
  reset_key window = elim window.resets_at [ none ↦ f.infinity | some at ↦ at ]

  -- `max`: the first of those that reset last
  unfoldable pub last_reset : QuotaWindow → List QuotaWindow → QuotaWindow
  unfolding reset_key
  last_reset best [] = best
  last_reset best (next ∷ rest) =
      last_reset (if reset_key best << reset_key next then next else best) rest

  unfoldable pub latest : List QuotaWindow → Option QuotaWindow
  unfolding last_reset
  latest [] = none
  latest (w ∷ ws) = some (last_reset w ws)

  unfoldable pub exhausted_in : QuotaPolicyCfg → Bool → Option QuotaSnapshot → Option QuotaWindow
  unfolding windows_of is_spent latest keep
  exhausted_in knobs true (some snapshot) = latest (keep (is_spent knobs) (windows_of snapshot))
  exhausted_in knobs _ _ = none

  -- The window that has run out, or None.
  unfoldable pub exhausted_window :
      Option QuotaSnapshot → QuotaPolicyCfg → Number → Option Number → Option QuotaWindow
  unfolding exhausted_in is_fresh snapshot_status
  exhausted_window snapshot knobs now stale_after =
      exhausted_in knobs (is_fresh (snapshot_status snapshot now stale_after)) snapshot
