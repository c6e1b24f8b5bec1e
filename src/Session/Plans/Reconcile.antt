-- ===== src/Session/Plans/Reconcile.antt =====
-- `reconcile` of `Sessions` (src/jev_router/sessions.py): an ambiguous update closed by hand. The
-- clock is read at each write: `marked`, `moved` and `cleared`.
pub mod Sessions
pub mod Marks
pub mod Settles
pub mod Errors
mod Tests
use jev_router.Common.{
  ℕ, Bool, true, false, String, str_eq, List, [], ◌∷◌, Option, none, some, ok, err, opt_eq, Result,
  if◌then◌else◌,
}
use jev_router.Turn.Ledger.{Status, RowAction, is_reconcilable, is_change}
use jev_router.Session.{SessionRow, PlanRow, Store}
use jev_router.Session.Contract.{
  Field, to_effective_effort, to_confirmed_effort, to_expected_effort, to_effort_lineage, get,
  update,
}
use jev_router.Session.Plans.{to_status, to_confirmed, to_reconciled, update_plan, plan_by_id}
use jev_router.Session.Plans.Reconcile.Errors.{SessionError, session_conflict, raised}

-- `outcome`
pub data Verdict : Type 0 where
  applied not_applied : Verdict

abbrev pub verdict_text : Verdict → String
verdict_text applied = "applied"
verdict_text not_applied = "not_applied"

abbrev pub status_after : Verdict → Status
status_after applied = Status.confirmed
status_after not_applied = Status.rejected

abbrev pub effort_after : Verdict → PlanRow → Option String
effort_after applied plan = plan.to_effort
effort_after not_applied plan = none

-- `a or b`, where an empty text counts as absent
abbrev or_text : Option String → Option String → Option String
or_text none b = b
or_text (some a) b = if str_eq a "" then b else some a

abbrev pub or_row {ℓ} : {A : Type ℓ} → Option A → A → A
or_row none default = default
or_row (some found) default = found

unfoldable pub kept_effort : Verdict → PlanRow → SessionRow → Option String
kept_effort applied plan current = plan.to_effort
kept_effort not_applied plan current = or_text current.confirmed_effort current.base_effort

unfoldable pub mark_plan : Store → PlanRow → Verdict → ℕ → Store
unfolding update_plan
mark_plan store plan outcome marked =
    update_plan store plan.plan_id
      (to_status (some (status_after outcome))
        ∷ to_confirmed (effort_after outcome plan)
        ∷ to_reconciled (some (verdict_text outcome))
        ∷ [])
      marked

abbrev pub keeping : Option String → List Field
keeping keep = to_effective_effort keep ∷ to_confirmed_effort keep ∷ to_expected_effort keep ∷ []

unfoldable pub move_effort : Bool → Store → String → SessionRow → Option String → ℕ → Store
unfolding update
move_effort true store session_id current keep moved =
    (update store session_id current.version (keeping keep) moved).0
move_effort false store session_id current keep moved = store

abbrev pub lost : SessionRow → Bool
lost row = opt_eq row.effort_lineage (some "unknown")

-- What the caller is told.
pub record Report : Type 0 where
  pub session_id : String
  pub plan_id : String
  pub turn_id : String
  pub outcome : Verdict
  pub was : Status
  pub status : Status
  pub base_effort : Option String
  pub effective_effort : Option String
  pub confirmed_effort : Option String
  pub effort_lineage : Option String

-- What a write left of the row, as it is read again.
abbrev pub read_again : Store → String → SessionRow → Store × SessionRow
read_again store session_id old = (store, or_row (get store session_id "") old)

-- The ledger's efforts move with the plan that asked for them.
unfoldable pub settle_effort :
    Store → PlanRow → String → SessionRow → Verdict → ℕ → Store × SessionRow
unfolding get kept_effort move_effort
settle_effort store plan session_id current outcome moved =
    read_again
      (move_effort (is_change plan.action) store session_id current
        (kept_effort outcome plan current) moved)
      session_id current

unfoldable pub settle_lineage : Bool → Store → String → SessionRow → ℕ → Store × SessionRow
unfolding get update
settle_lineage true store session_id row cleared =
    read_again
      (update store session_id row.version (to_effort_lineage (some "known") ∷ []) cleared).0
      session_id row
settle_lineage false store session_id row cleared = (store, row)

unfoldable pub settle_session :
    Store → PlanRow → String → SessionRow → Verdict → ℕ → ℕ → Store × SessionRow
unfolding settle_effort settle_lineage opt_eq
settle_session store plan session_id current outcome moved cleared =
    let (moving, after) = settle_effort store plan session_id current outcome moved in
    settle_lineage (lost after) moving session_id after cleared

unfoldable pub report : Store → SessionRow → PlanRow → SessionRow → Verdict → Report
unfolding plan_by_id
report store after plan row outcome = record {
  session_id = row.session_id;
  plan_id = plan.plan_id;
  turn_id = plan.turn_id;
  outcome = outcome;
  was = plan.status;
  status = (or_row (plan_by_id store plan.plan_id) plan).status;
  base_effort = after.base_effort;
  effective_effort = after.effective_effort;
  confirmed_effort = after.confirmed_effort;
  effort_lineage = or_text after.effort_lineage (some "known");
}

unfoldable pub settle_plan : Store → PlanRow → SessionRow → Verdict → ℕ → ℕ → ℕ → Store × Report
unfolding get mark_plan settle_session report
settle_plan store plan row outcome marked moved cleared =
    let told = mark_plan store plan outcome marked in
    let (last, after) =
      settle_session told plan row.session_id (or_row (get told row.session_id "") row) outcome
        moved cleared in
    (last, report last after plan row outcome)

-- Close an ambiguous update by hand, in one direction or the other.
unfoldable pub reconcile :
    Store → PlanRow → SessionRow → Verdict → ℕ → ℕ → ℕ → Result SessionError (Store × Report)
unfolding settle_plan
reconcile store plan row outcome marked moved cleared =
    if is_reconcilable plan.status
    then ok (settle_plan store plan row outcome marked moved cleared)
    else err (raised session_conflict plan.plan_id plan.turn_id plan.status)
