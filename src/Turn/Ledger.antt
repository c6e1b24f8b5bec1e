-- ===== src/Turn/Ledger.antt =====
-- The update ledger's rules (src/jev_router/effort.py). A row is a record of the columns that the
-- rules read; a word that the code compares with constants is a constructor, any other `other`.
pub mod Paths
pub mod Search
mod Tests
use jev_router.Common.{
  ℕ, Bool, true, false, ◌&&◌, String, str_eq, List, map, Option, none, some, if◌then◌else◌,
}
use jev_router.Common.Sorted.{sort_by, ascending, descending, find}

pub data Status : Type 0 where
  planned accepted confirmed rejected outcome_unknown : Status
  other : String → Status

-- Statuses in which an effort change is in the air.
pub is_open : Status → Bool
is_open Status.planned = true
is_open Status.accepted = true
is_open Status.outcome_unknown = true
is_open _ = false

-- The statuses a hand reconciliation may speak about.
unfoldable pub is_reconcilable : Status → Bool
is_reconcilable Status.accepted = true
is_reconcilable Status.outcome_unknown = true
is_reconcilable _ = false

pub data Event : Type 0 where
  accepted completed rejected unknown : Event
  other : String → Event

pub data RowAction : Type 0 where
  change_effort : RowAction
  other : String → RowAction

pub record Row : Type 0 where
  pub sequence : Option ℕ
  pub action : RowAction
  pub status : Status
  pub reconciled : String
  pub anchor_position : Option ℕ
  pub to_effort : Option String
  pub recommendation : Option String

-- `row.get("sequence") or 0`
abbrev pub sequence_of : Row → ℕ
sequence_of row = elim row.sequence [ none ↦ 0 | some n ↦ n ]

abbrev pub is_change : RowAction → Bool
is_change change_effort = true
is_change (RowAction.other _) = false

abbrev pub is_open_change : Row → Bool
is_open_change row = is_change row.action && is_open row.status

-- The newest effort change nobody can call settled.
pub open_change : List Row → Option Row
open_change rows = find is_open_change (sort_by (descending sequence_of) rows)

is_none : Option ℕ → Bool
is_none none = true
is_none (some _) = false

pub is_hole : Row → Bool
unfolding is_none
is_hole row = is_change row.action && str_eq row.reconciled "applied" && is_none row.anchor_position

-- The oldest update the provider holds that the router never saw land.
pub reconciliation_hole : List Row → Option Row
reconciliation_hole rows = find is_hole (sort_by (ascending sequence_of) rows)

on_accepted : Status → Status
on_accepted Status.planned = Status.accepted
on_accepted Status.rejected = Status.accepted
on_accepted s = s

on_completed : Status → Status
on_completed Status.accepted = Status.confirmed
on_completed s = s

on_rejected : Status → Status
on_rejected Status.planned = Status.rejected
on_rejected Status.rejected = Status.rejected
on_rejected s = Status.outcome_unknown

on_event : Event → Status → Status
unfolding on_accepted on_completed on_rejected
on_event Event.accepted s = on_accepted s
on_event Event.completed s = on_completed s
on_event Event.rejected s = on_rejected s
on_event Event.unknown s = Status.outcome_unknown
on_event (Event.other _) s = s

-- What a row's status becomes when something happens to it.
pub advance : Status → Event → Status
unfolding on_event
advance (Status.other s) event = Status.other s
advance Status.confirmed event = Status.confirmed
advance s event = on_event event s

-- `plan_row.get("to_effort") or confirmed`, where an empty text counts as absent
or_confirmed : Option String → Option String → Option String
or_confirmed none c = c
or_confirmed (some to) c = if str_eq to "" then c else some to

effective : Status → RowAction → Option String → Option String → Option String
unfolding or_confirmed
effective Status.confirmed change_effort to c = or_confirmed to c
effective _ _ to c = c

-- The confirmed effective effort after this row, or what it already was.
pub effective_after : Row → Option String → Option String
unfolding effective
effective_after row c = effective row.status row.action row.to_effort c

-- The recommendation each eligible turn made, oldest first.
pub recommendation_history : List Row → List (Option String)
recommendation_history rows = map (λ row. row.recommendation) (sort_by (ascending sequence_of) rows)
