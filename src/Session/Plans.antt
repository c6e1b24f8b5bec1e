-- ===== src/Session/Plans.antt =====
-- The effort update ledger of `Sessions` (src/jev_router/sessions.py): the table `turn_plans`.
pub mod Newest
pub mod Recorded
pub mod Reconcile
use jev_router.Common.{
  ℕ, zero, suc, max, Bool, true, false, not, ◌&&◌, ◌||◌, String, str_eq, List, [], ◌∷◌, ◌++◌,
  reverse, Option, none, some, keep, any, leb, if◌then◌else◌,
}
use jev_router.Common.Sorted.{find, sort_by, descending}
use jev_router.Common.Table.{update_where}
use jev_router.Turn.Ledger.{Status, RowAction, is_change}
use jev_router.Session.{PlanRow, Store}
use jev_router.Session.Requests.{take}
use jev_router.Session.Contract.{given, set_column}
use jev_router.Session.Contract.Turns.{number_or}

abbrev pub plan_key : PlanRow → ℕ
plan_key row = row.id

abbrev pub ledger_of : String → PlanRow → Bool
ledger_of session_id row = str_eq row.session_id session_id

abbrev pub in_turn : String → String → PlanRow → Bool
in_turn session_id turn_id row = ledger_of session_id row && str_eq row.turn_id turn_id

abbrev pub is_plan : String → String → PlanRow → Bool
is_plan session_id plan_id row = ledger_of session_id row && str_eq row.plan_id plan_id

-- This session's turn plans, oldest first.
unfoldable pub plans : Store → String → ℕ → List PlanRow
unfolding take sort_by keep
plans store session_id limit =
    reverse (take limit (sort_by (descending plan_key) (keep (ledger_of session_id) store.plans)))

-- `SELECT * … WHERE p ORDER BY id DESC LIMIT 1`
unfoldable pub newest_plan : (PlanRow → Bool) → Store → Option PlanRow
unfolding find sort_by
newest_plan p store = find p (sort_by (descending plan_key) store.plans)

-- One plan, by its own id or by the turn it belongs to.
unfoldable pub get_plan : Store → String → String → String → Option PlanRow
unfolding newest_plan
get_plan store session_id plan_id turn_id =
    if not (str_eq plan_id "")
    then newest_plan (is_plan session_id plan_id) store
    else if not (str_eq turn_id "")
    then newest_plan (in_turn session_id turn_id) store
    else none

abbrev pub has_plan_id : String → PlanRow → Bool
has_plan_id plan_id row = str_eq row.plan_id plan_id

unfoldable pub plan_by_id : Store → String → Option PlanRow
unfolding newest_plan
plan_by_id store plan_id = newest_plan (has_plan_id plan_id) store

-- `COALESCE(MAX(sequence), 0)`
unfoldable pub last_sequence : List PlanRow → ℕ
last_sequence [] = 0
last_sequence (row ∷ rows) = max row.sequence (last_sequence rows)

unfoldable pub next_sequence : Store → String → ℕ
unfolding last_sequence keep
next_sequence store session_id = suc (last_sequence (keep (ledger_of session_id) store.plans))

-- The columns of a plan that is offered.
pub record Offer : Type 0 where
  pub plan_id : String
  pub turn_id : String
  pub sequence : ℕ
  pub action : RowAction
  pub status : Status
  pub to_effort : Option String
  pub confirmed_effort : Option String
  pub compaction_epoch : Option ℕ
  pub columns : List (String × String)

unfoldable pub plan_row : Store → String → Offer → ℕ → PlanRow
plan_row store session_id plan now = record {
  id = store.next_plan;
  session_id = session_id;
  plan_id = plan.plan_id;
  turn_id = plan.turn_id;
  sequence = plan.sequence;
  action = plan.action;
  status = plan.status;
  to_effort = plan.to_effort;
  confirmed_effort = plan.confirmed_effort;
  reconciled = none;
  compaction_epoch = plan.compaction_epoch;
  created = now;
  updated = now;
  columns = plan.columns;
}

-- The row breaks UNIQUE (session_id, plan_id), or the index of one plan for each turn where the
-- database has it (`unique_turn_plans`).
unfoldable pub conflicts : Bool → PlanRow → PlanRow → Bool
conflicts unique_turn_plans new row =
    is_plan new.session_id new.plan_id row
    || (unique_turn_plans && in_turn new.session_id new.turn_id row)

unfoldable pub insert_plan : Store → PlanRow → Bool → Store × Bool
insert_plan store new true = (store, false)
insert_plan store new false =
    (record store { plans = store.plans ++ new ∷ []; next_plan = suc store.next_plan }, true)

abbrev or_else : Option PlanRow → Option PlanRow → Option PlanRow
or_else none other = other
or_else (some row) other = some row

unfoldable pub answer_plan : Store → String → Offer → Bool → Option PlanRow
unfolding get_plan
answer_plan store session_id plan true = get_plan store session_id plan.plan_id ""
answer_plan store session_id plan false =
    or_else (get_plan store session_id "" plan.turn_id) (get_plan store session_id plan.plan_id "")

-- Write one plan row, or return the one that got to this turn first.
unfoldable pub record_plan : Bool → Store → String → Offer → ℕ → Store × Option PlanRow
unfolding plan_row conflicts insert_plan answer_plan any
record_plan unique_turn_plans store session_id plan now =
    let new = plan_row store session_id plan now in
    let (after, created) =
      insert_plan store new (any (conflicts unique_turn_plans new) store.plans) in
    (after, answer_plan after session_id plan created)

-- One of the `**fields` of a plan's update, with None as the source's None. `to_column` is a column
-- that has no field of its own, such as `response_id` or `anchor_position`; no caller names another.
pub data PlanField : Type 0 where
  to_status : Option Status → PlanField
  to_confirmed to_reconciled : Option String → PlanField
  to_column : String → Option String → PlanField

unfoldable pub assign_plan : PlanField → PlanRow → PlanRow
unfolding set_column
assign_plan (to_status none) row = row
assign_plan (to_status (some s)) row = record row { status = s }
assign_plan (to_confirmed e) row = record row { confirmed_effort = given e row.confirmed_effort }
assign_plan (to_reconciled r) row = record row { reconciled = given r row.reconciled }
assign_plan (to_column name v) row = record row { columns = set_column name v row.columns }

unfoldable pub assign_plans : List PlanField → ℕ → PlanRow → PlanRow
unfolding assign_plan
assign_plans [] now row = record row { updated = now }
assign_plans (f ∷ fs) now row = assign_plans fs now (assign_plan f row)

is_given : PlanField → Bool
is_given (to_status none) = false
is_given (to_confirmed none) = false
is_given (to_reconciled none) = false
is_given (to_column name none) = false
is_given _ = true

unfoldable pub update_plan : Store → String → List PlanField → ℕ → Store
unfolding update_where assign_plans is_given any
update_plan store plan_id fields now =
    if any is_given fields
    then record store {
      plans = update_where (has_plan_id plan_id) (assign_plans fields now) store.plans;
    }
    else store

unfoldable pub reached_provider : Status → Bool
reached_provider Status.accepted = true
reached_provider Status.confirmed = true
reached_provider Status.outcome_unknown = true
reached_provider _ = false

-- Every effort update this session's history is still supposed to carry.
unfoldable pub applied_updates : Store → String → ℕ → List PlanRow
unfolding plans reached_provider keep
applied_updates store session_id epoch =
    keep
      (λ row.
        is_change row.action
        && (reached_provider row.status && leb epoch (number_or 0 row.compaction_epoch)))
      (plans store session_id 500)
