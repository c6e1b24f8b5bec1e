-- ===== src/Session/Contract.antt =====
-- The operations of `Sessions` on the table `sessions` (src/jev_router/sessions.py). `now` is what
-- the clock reads where the method reads it.
pub mod Turns
pub mod Commands
pub mod Once
use jev_router.Common.{
  ℕ, suc, ◌+◌, ◌≡◌, Bool, true, false, not, ◌&&◌, String, str_eq, List, [], ◌∷◌, ◌++◌, Option, none,
  some, ltb, ◌==◌, keep, if◌then◌else◌,
}
use jev_router.Common.Sorted.{find}
use jev_router.Common.Table.{update_where, count_where}
use jev_router.Session.{
  State, prepared, active, blocked, closed, SessionRow, RequestRow, PlanRow, Store,
  SessionRoutingCfg,
}

-- One of the `**fields` of an update, with None as the source's None.
pub data Field : Type 0 where
  to_state : State → Field
  to_base_effort to_effective_effort to_expected_effort to_confirmed_effort to_effort_lineage :
      Option String → Field
  to_blocked_reason to_compaction_state : Option String → Field
  to_compaction_epoch to_compacted_at : Option ℕ → Field
  to_column : String → Option String → Field

-- The value that a `SET` leaves: a field that is None is dropped from the statement.
abbrev pub given {ℓ} : {A : Type ℓ} → Option A → Option A → Option A
given none old = old
given (some new) old = some new

abbrev name_of : String × String → String
name_of column = column.0

unfoldable pub set_column : String → Option String → List (String × String) → List (String × String)
unfolding keep
set_column name none columns = columns
set_column name (some v) columns =
    (name, v) ∷ keep (λ column. not (str_eq (name_of column) name)) columns

unfoldable pub assign : Field → SessionRow → SessionRow
unfolding set_column
assign (to_state s) row = record row { state = s }
assign (to_base_effort e) row = record row { base_effort = given e row.base_effort }
assign (to_effective_effort e) row = record row { effective_effort = given e row.effective_effort }
assign (to_expected_effort e) row = record row { expected_effort = given e row.expected_effort }
assign (to_confirmed_effort e) row = record row { confirmed_effort = given e row.confirmed_effort }
assign (to_effort_lineage l) row = record row { effort_lineage = given l row.effort_lineage }
assign (to_blocked_reason r) row = record row { blocked_reason = given r row.blocked_reason }
assign (to_compaction_state c) row = record row { compaction_state = given c row.compaction_state }
assign (to_compaction_epoch n) row = record row { compaction_epoch = given n row.compaction_epoch }
assign (to_compacted_at t) row = record row { compacted_at = given t row.compacted_at }
assign (to_column name v) row = record row { columns = set_column name v row.columns }

unfoldable pub assign_all : List Field → SessionRow → SessionRow
unfolding assign
assign_all [] row = row
assign_all (f ∷ fs) row = assign_all fs (assign f row)

abbrev pub has_id : String → SessionRow → Bool
has_id session_id row = str_eq row.session_id session_id

-- `SELECT * FROM sessions WHERE session_id = ?`
unfoldable pub find_session : List SessionRow → String → Option SessionRow
unfolding find
find_session rows session_id = find (has_id session_id) rows

unfoldable pub owned : String → Option SessionRow → Option SessionRow
owned owner none = none
owned owner (some row) =
    if not (str_eq owner "") && not (str_eq row.owner owner) then none else some row

-- One session, tombstones included. An owner mismatch reads as absent.
unfoldable pub get : Store → String → String → Option SessionRow
unfolding find_session owned
get store session_id owner = owned owner (find_session store.sessions session_id)

is_prepared : State → Bool
is_prepared prepared = true
is_prepared _ = false

is_closed : State → Bool
is_closed closed = true
is_closed _ = false

-- `clock - created > ttl`
unfoldable pub expired : SessionRoutingCfg → ℕ → SessionRow → Bool
unfolding is_prepared
expired cfg now row = is_prepared row.state && ltb (row.created + cfg.prepared_ttl_seconds) now

-- `binding`, of which every session has an id and an owner
pub record Binding : Type 0 where
  pub session_id : String
  pub owner : String
  pub fields : List Field

-- A column that the statement does not name is NULL.
abbrev pub unnamed_row : String → String → ℕ → SessionRow
unnamed_row session_id owner now = record {
  session_id = session_id;
  owner = owner;
  state = prepared;
  version = 1;
  tombstone = false;
  base_effort = none;
  effective_effort = none;
  expected_effort = none;
  confirmed_effort = none;
  effort_lineage = none;
  blocked_reason = none;
  compaction_epoch = none;
  compacted_at = none;
  compaction_state = none;
  turn_count = none;
  escalation_count = none;
  corrective_count = none;
  feedback_verdict = none;
  created = now;
  last_seen = none;
  closed_at = none;
  columns = [];
}

-- The row that the statement inserts.
unfoldable pub prepared_row : Binding → ℕ → SessionRow
unfolding assign_all
prepared_row binding now =
    record (assign_all binding.fields (unnamed_row binding.session_id binding.owner now)) {
      state = prepared;
      version = 1;
      created = now;
      last_seen = some now;
    }

insert_session : List SessionRow → SessionRow → Option SessionRow → List SessionRow × Bool
insert_session rows row (some there) = (rows, false)
insert_session rows row none = (rows ++ row ∷ [], true)

-- Insert one prepared binding, or report the one that got there first.
unfoldable pub create : Store → Binding → ℕ → Store × Option SessionRow × Bool
unfolding find_session prepared_row insert_session
create store binding now =
    let (rows, created) =
      insert_session store.sessions (prepared_row binding now)
        (find_session store.sessions binding.session_id) in
    (record store { sessions = rows }, find_session rows binding.session_id, created)

unfoldable pub at_version : String → ℕ → SessionRow → Bool
at_version session_id version row = has_id session_id row && row.version == version

unfoldable pub updated_row : List Field → ℕ → SessionRow → SessionRow
unfolding assign_all
updated_row fields now row = record (assign_all fields row) {
  version = suc row.version;
  last_seen = some now;
}

-- A conditional write. False means somebody else moved the row first.
unfoldable pub update : Store → String → ℕ → List Field → ℕ → Store × Bool
unfolding update_where count_where at_version updated_row
update store session_id version fields now = (
  record store {
    sessions = update_where (at_version session_id version) (updated_row fields now) store.sessions;
  },
  count_where (at_version session_id version) store.sessions == 1,
)

unfoldable pub activate : Store → String → ℕ → ℕ → Store × Bool
unfolding update
activate store session_id version now = update store session_id version (to_state active ∷ []) now

-- Stop the session and keep the binding.
unfoldable pub block : Store → String → ℕ → String → ℕ → Store × Bool
unfolding update
block store session_id version reason now =
    update store session_id version (to_state blocked ∷ to_blocked_reason (some reason) ∷ []) now

-- `COALESCE(old, new)`
abbrev pub coalesce {ℓ} : {A : Type ℓ} → Option A → A → Option A
coalesce none new = some new
coalesce (some old) new = some old

unfoldable pub open_session : String → SessionRow → Bool
unfolding is_closed
open_session session_id row = has_id session_id row && not (is_closed row.state)

unfoldable pub closed_row : String → ℕ → SessionRow → SessionRow
closed_row reason now row = record row {
  state = closed;
  closed_at = some now;
  version = suc row.version;
  blocked_reason = coalesce row.blocked_reason reason;
}

unfoldable pub close_session : Store → String → String → ℕ → Store × Bool
unfolding update_where count_where open_session closed_row
close_session store session_id reason now = (
  record store {
    sessions = update_where (open_session session_id) (closed_row reason now) store.sessions;
  },
  count_where (open_session session_id) store.sessions == 1,
)

unfoldable pub seen_row : ℕ → SessionRow → SessionRow
seen_row now row = record row { last_seen = some now }

unfoldable pub touch : Store → String → ℕ → Store
unfolding update_where seen_row
touch store session_id now = record store {
  sessions = update_where (has_id session_id) (seen_row now) store.sessions;
}
