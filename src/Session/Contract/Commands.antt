-- ===== src/Session/Contract/Commands.antt =====
-- Every write to the table `sessions` as a command, and what it does to the row of one id: the
-- table is as good as one independent row for each id.
pub mod Identity
pub mod Rows
pub mod Kept
mod Tests
use jev_router.Common.{
  ℕ, ◌≡◌, refl, sym, ap, ◌∙◌, subst, Bool, true, false, ◌&&◌, String, str_eq, str_eq_iff, List, [],
  ◌∷◌, ◌++◌, Option, none, some, ◌==◌, if◌then◌else◌, Bool-cases, Option-cases, inl, inr, of_some,
  ◌≢◌, arith,
}
use mathlib.Core.Option
use mathlib.Core.Option.{none-ne-some}
use jev_router.Common.Sorted.{find}
use jev_router.Common.Table.{update_where, find-update_where, find-append, find-holds}
use jev_router.Session.{SessionRow, Store}
use jev_router.Session.Contract.{
  Field, to_state, to_base_effort, to_effective_effort, to_expected_effort, to_confirmed_effort,
  to_effort_lineage, to_blocked_reason, to_compaction_state, to_compaction_epoch, to_compacted_at,
  to_column, Binding, has_id, find_session, get, owned, assign, assign_all, unnamed_row,
  prepared_row, insert_session, create, at_version, updated_row, update, open_session, closed_row,
  close_session, seen_row, touch,
}
use jev_router.Session.Contract.Turns.{
  compact, compact_row, compacting, next_epoch, bump_turn, next_turn, bump_counts, count_up,
  counted_row, set_feedback_verdict, judged_row, prune, is_stale, tombstone_row, number_or,
}

pub data Command : Type 0 where
  creates : Binding → ℕ → Command
  updates : String → ℕ → List Field → ℕ → Command
  closes : String → String → ℕ → Command
  -- the write of a compaction, with the row that it read, whenever that was
  compacts : Option SessionRow → String → String → ℕ → ℕ → Command
  touches : String → ℕ → Command
  bumps_turn : String → Command
  bumps_counts : String → ℕ → ℕ → Command
  judges : String → String → Command
  prunes : ℕ → ℕ → ℕ → Command

unfoldable pub run : Store → Command → Store
unfolding create update close_session compact_row touch bump_turn bump_counts set_feedback_verdict
    prune
run store (creates binding now) = (create store binding now).0
run store (updates session_id version fields now) = (update store session_id version fields now).0
run store (closes session_id reason now) = (close_session store session_id reason now).0
run store (compacts read session_id state compacted now) =
    (compact_row store session_id state compacted now read).0
run store (touches session_id now) = touch store session_id now
run store (bumps_turn session_id) = (bump_turn store session_id).0
run store (bumps_counts session_id escalation corrective) =
    bump_counts store session_id escalation corrective
run store (judges session_id verdict) = set_feedback_verdict store session_id verdict
run store (prunes older_than now closing) = (prune store older_than now closing).0

unfoldable pub run_all : Store → List Command → Store
unfolding run
run_all store [] = store
run_all store (c ∷ cs) = run_all (run store c) cs

unfoldable pub born : Binding → ℕ → String → Option SessionRow → Option SessionRow
unfolding prepared_row
born binding now session_id (some row) = some row
born binding now session_id none =
    if str_eq binding.session_id session_id then some (prepared_row binding now) else none

row_counted : Bool → String → ℕ → ℕ → SessionRow → SessionRow
unfolding counted_row
row_counted true session_id escalation corrective row = row
row_counted false session_id escalation corrective row =
    if has_id session_id row then counted_row escalation corrective row else row

compacted_row : Option SessionRow → String → String → ℕ → ℕ → SessionRow → SessionRow
unfolding at_version updated_row
compacted_row none session_id state compacted now row = row
compacted_row (some read) session_id state compacted now row =
    if at_version session_id read.version row
    then updated_row (compacting (next_epoch read) state compacted) now row
    else row

-- What a command does to a row that exists.
unfoldable pub change_row : Command → SessionRow → SessionRow
unfolding at_version updated_row compacted_row open_session closed_row seen_row next_turn
    row_counted judged_row is_stale tombstone_row
change_row (creates binding now) row = row
change_row (updates session_id version fields now) row =
    if at_version session_id version row then updated_row fields now row else row
change_row (closes session_id reason now) row =
    if open_session session_id row then closed_row reason now row else row
change_row (compacts read session_id state compacted now) row =
    compacted_row read session_id state compacted now row
change_row (touches session_id now) row = if has_id session_id row then seen_row now row else row
change_row (bumps_turn session_id) row = if has_id session_id row then next_turn row else row
change_row (bumps_counts session_id escalation corrective) row =
    row_counted (escalation == 0 && corrective == 0) session_id escalation corrective row
change_row (judges session_id verdict) row =
    if has_id session_id row then judged_row verdict row else row
change_row (prunes older_than now closing) row =
    if is_stale older_than now row then tombstone_row closing row else row

-- What a command does to the row of one id, or to its absence.
unfoldable pub effect : Command → String → Option SessionRow → Option SessionRow
unfolding born change_row
effect (creates binding now) session_id row = born binding now session_id row
effect c session_id row = Option.map (change_row c) row

unfoldable pub effect_all : List Command → String → Option SessionRow → Option SessionRow
unfolding effect
effect_all [] session_id row = row
effect_all (c ∷ cs) session_id row = effect_all cs session_id (effect c session_id row)
