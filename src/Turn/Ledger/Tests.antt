-- ===== src/Turn/Ledger/Tests.antt =====
-- Ledgers that run, and the theorems of the ledger at them.
use mathlib.Core.List.{Memᴰ}
use mathlib.Core.Bool.{false≢true}
use jev_router.Common.{
  ℕ, ◌≤◌, ◌≡◌, ◌≢◌, refl, true, String, List, [], ◌∷◌, none, some, str_eq_iff, of_some, All,
}
use jev_router.Common.Sorted.{sort_by, find}
use jev_router.Turn.Ledger.{
  Status, Event, Row, RowAction, sequence_of, is_open_change, is_open, is_hole, open_change,
  reconciliation_hole, advance, effective_after,
}
use jev_router.Turn.Ledger.Paths.{run, run-absorbs, AcceptedThenCompleted, effective_after-run}
use jev_router.Turn.Ledger.Search.{open_change-newest}

abbrev row : ℕ → Status → String → Row
row n status reconciled = record {
  sequence = some n;
  action = RowAction.change_effort;
  status = status;
  reconciled = reconciled;
  anchor_position = none;
  to_effort = some "high";
  recommendation = some "high";
}

abbrev rows : List Row
rows =
    row 3 Status.confirmed "applied"
    ∷ row 1 Status.planned ""
    ∷ row 2 Status.accepted "applied"
    ∷ []

open_change_example : open_change rows ≡ some (row 2 Status.accepted "applied")
unfolding open_change find sort_by is_open
open_change_example = refl

hole_example : reconciliation_hole rows ≡ some (row 2 Status.accepted "applied")
unfolding reconciliation_hole find sort_by is_hole
hole_example = refl

open_change-newest_example :
    (is_open_change (row 2 Status.accepted "applied") ≡ true)
    × Memᴰ (row 2 Status.accepted "applied") rows
    × All (λ r. is_open_change r ≡ true → sequence_of r ≤ 2) rows
open_change-newest_example =
    open_change-newest rows (row 2 Status.accepted "applied") open_change_example

run-absorbs_example :
    (run Status.confirmed (Event.rejected ∷ []) ≡ Status.confirmed)
    × (run Status.outcome_unknown (Event.rejected ∷ []) ≡ Status.outcome_unknown)
run-absorbs_example = run-absorbs (Event.rejected ∷ [])

abbrev carried : List Event
carried = Event.rejected ∷ Event.accepted ∷ Event.completed ∷ []

moves_effort : effective_after (row 1 Status.confirmed "") (some "low") ≢ some "low"
unfolding effective_after
moves_effort h = false≢true ((str_eq_iff "high" "low").1 (of_some h))

effective_after-run_example : AcceptedThenCompleted carried
unfolding advance
effective_after-run_example =
    effective_after-run (row 1 Status.confirmed "") carried (some "low") refl moves_effort
