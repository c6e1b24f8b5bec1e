-- ===== src/Session/Plans/Reconcile/Tests.antt =====
-- A reconciliation that runs, and the theorem at it.
use jev_router.Common.{◌≡◌, refl, [], ◌∷◌, none, some, ok, any, opt_eq}
use jev_router.Common.Sorted.{find, sort_by}
use jev_router.Common.Table.{update_where, count_where}
use jev_router.Turn.Ledger.{Status, change_effort, is_reconcilable}
use jev_router.Session.{SessionRow, PlanRow, Store, active}
use jev_router.Session.Contract.{
  unnamed_row, find_session, get, owned, update, at_version, updated_row, assign, assign_all,
}
use jev_router.Session.Plans.{
  newest_plan, plan_by_id, assign_plan, assign_plans, is_given, update_plan,
}
use jev_router.Session.Plans.Reconcile.{
  Verdict, applied, not_applied, Report, mark_plan, kept_effort, move_effort, settle_effort,
  settle_lineage, settle_session, report, settle_plan, reconcile,
}
use jev_router.Session.Plans.Reconcile.Errors.{raised, error_status}
use jev_router.Session.Plans.Reconcile.Settles.{Settled, reconcile-Settled}

abbrev row : SessionRow
row = record (unnamed_row "s" "ann" 1) {
  state = active;
  version = 4;
  base_effort = some "low";
  effective_effort = some "low";
  confirmed_effort = some "low";
  expected_effort = some "high";
  effort_lineage = some "unknown";
}

abbrev plan : PlanRow
plan = record {
  id = 1;
  session_id = "s";
  plan_id = "p";
  turn_id = "t";
  sequence = 1;
  action = change_effort;
  status = Status.outcome_unknown;
  to_effort = some "high";
  confirmed_effort = none;
  reconciled = none;
  compaction_epoch = none;
  created = 2;
  updated = 2;
  columns = [];
}

abbrev store : Store
store = record {
  sessions = row ∷ [];
  requests = [];
  plans = plan ∷ [];
  next_request = 1;
  next_plan = 2;
}

unfoldable reconcile_run : Unit {0}
unfolding find_session get owned update at_version updated_row assign assign_all newest_plan
    plan_by_id assign_plan assign_plans is_given update_plan mark_plan kept_effort move_effort
    settle_effort settle_lineage settle_session report settle_plan reconcile raised error_status
    find sort_by update_where count_where any opt_eq is_reconcilable
reconcile_run = tt

abbrev told : Verdict → Report
told outcome = (settle_plan store plan row outcome 5 6 7).1

applied_takes_the_plan_s_effort :
    ((told applied).effective_effort ≡ some "high") × ((told applied).effort_lineage ≡ some "known")
unfolding reconcile_run
applied_takes_the_plan_s_effort = (refl, refl)

not_applied_goes_back :
    ((told not_applied).effective_effort ≡ some "low")
    × ((told not_applied).status ≡ Status.rejected)
unfolding reconcile_run
not_applied_goes_back = (refl, refl)

reconcile-Settled_example :
    (after : Store) × (told : Report) × (reconcile store plan row applied 5 6 7 ≡ ok (after, told))
    × Settled plan row row applied after told
unfolding reconcile_run
reconcile-Settled_example = reconcile-Settled store plan plan row row applied 5 6 7 refl refl refl
