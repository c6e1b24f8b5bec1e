-- ===== src/Session/Contract/Turns.antt =====
-- The other writes to the table `sessions` (src/jev_router/sessions.py): compaction, the counters,
-- and retention.
use jev_router.Common.{
  ℕ, suc, ◌+◌, Bool, true, false, not, ◌&&◌, String, List, [], ◌∷◌, Option, none, some, ltb, keep,
  contains, ◌==◌,
}
use jev_router.Common.Table.{update_where, count_where}
use jev_router.Session.{closed, SessionRow, RequestRow, PlanRow, Store}
use jev_router.Session.Contract.{
  Field, to_compaction_epoch, to_compacted_at, to_compaction_state, has_id, find_session, get,
  update, coalesce, name_of,
}

-- `int(row.get("compaction_epoch") or 0)`
abbrev pub number_or : ℕ → Option ℕ → ℕ
number_or default none = default
number_or default (some n) = n

abbrev pub next_epoch : SessionRow → ℕ
next_epoch row = suc (number_or 0 row.compaction_epoch)

abbrev pub compacting : ℕ → String → ℕ → List Field
compacting epoch state compacted =
    to_compaction_epoch (some epoch)
    ∷ to_compacted_at (some compacted)
    ∷ to_compaction_state (some state)
    ∷ []

-- The write, at the version that was read: it lands only where no other write came between.
unfoldable pub compact_row : Store → String → String → ℕ → ℕ → Option SessionRow → Store × ℕ
unfolding update
compact_row store session_id state compacted now none = (store, 0)
compact_row store session_id state compacted now (some row) =
    let epoch = next_epoch row in
    ((update store session_id row.version (compacting epoch state compacted) now).0, epoch)

-- Open a new compaction epoch on this session, and say which one. The read and the write take the
-- lock apart; `between` is what other calls do to the tables from the one to the other.
unfoldable pub compact : (Store → Store) → Store → String → String → ℕ → ℕ → Store × ℕ
unfolding get compact_row
compact between store session_id state compacted now =
    compact_row (between store) session_id state compacted now (get store session_id "")

turn_of : Option SessionRow → ℕ
turn_of none = 1
turn_of (some row) = number_or 1 row.turn_count

-- A session without a count is on turn 1, and so is an absent one.
unfoldable pub current_turn : Store → String → ℕ
unfolding find_session turn_of
current_turn store session_id = turn_of (find_session store.sessions session_id)

unfoldable pub next_turn : SessionRow → SessionRow
next_turn row = record row { turn_count = some (suc (number_or 1 row.turn_count)) }

-- Open the next user turn and return its number.
unfoldable pub bump_turn : Store → String → Store × ℕ
unfolding update_where next_turn current_turn
bump_turn store session_id =
    let after = record store {
      sessions = update_where (has_id session_id) next_turn store.sessions;
    } in
    (after, current_turn after session_id)

unfoldable pub counted_row : ℕ → ℕ → SessionRow → SessionRow
counted_row escalation corrective row = record row {
  escalation_count = some (number_or 0 row.escalation_count + escalation);
  corrective_count = some (number_or 0 row.corrective_count + corrective);
}

-- Nothing is written where both counts are zero.
unfoldable pub count_up : Bool → String → ℕ → ℕ → Store → Store
unfolding update_where counted_row
count_up true session_id escalation corrective store = store
count_up false session_id escalation corrective store = record store {
  sessions = update_where (has_id session_id) (counted_row escalation corrective) store.sessions;
}

-- Count an effort escalation or a corrective follow-up on the session.
unfoldable pub bump_counts : Store → String → ℕ → ℕ → Store
unfolding count_up
bump_counts store session_id escalation corrective =
    count_up (escalation == 0 && corrective == 0) session_id escalation corrective store

unfoldable pub judged_row : String → SessionRow → SessionRow
judged_row verdict row = record row { feedback_verdict = some verdict }

unfoldable pub set_feedback_verdict : Store → String → String → Store
unfolding update_where judged_row
set_feedback_verdict store session_id verdict = record store {
  sessions = update_where (has_id session_id) (judged_row verdict) store.sessions;
}

-- The columns of `blanked` that have no field of their own here.
abbrev blanked : List String
blanked =
    "alias" ∷ "model_key" ∷ "provider" ∷ "upstream_id" ∷ "wire_model" ∷ "protocol"
    ∷ "context_window" ∷ "max_output_tokens" ∷ "supports_tools" ∷ "supports_vision"
    ∷ "compatibility_revision" ∷ "binding_revision" ∷ "envelope_model" ∷ "decision_rule"
    ∷ "decision_reason" ∷ "quality_lane" ∷ "fingerprint" ∷ "estimate_method"
    ∷ "estimated_input_tokens" ∷ "reserve_tokens" ∷ "quota_status" ∷ "title" ∷ "prompt_preview"
    ∷ "workspace_hint" ∷ []

-- `COALESCE(last_seen, created) < clock - older_than_seconds`
unfoldable pub is_stale : ℕ → ℕ → SessionRow → Bool
is_stale older_than now row =
    not row.tombstone && ltb (number_or row.created row.last_seen + older_than) now

unfoldable pub tombstone_row : ℕ → SessionRow → SessionRow
unfolding keep contains
tombstone_row closing row = record row {
  state = closed;
  tombstone = true;
  base_effort = none;
  effective_effort = none;
  columns = keep (λ column. not (contains blanked (name_of column))) row.columns;
  closed_at = coalesce row.closed_at closing;
  blocked_reason = coalesce row.blocked_reason "pruned";
  version = suc row.version;
}

-- How many rows of each table it reached.
pub record Pruned : Type 0 where
  pub sessions : ℕ
  pub session_requests : ℕ
  pub turn_plans : ℕ

abbrev old_request : ℕ → ℕ → RequestRow → Bool
old_request older_than now row = ltb (row.created + older_than) now

abbrev old_plan : ℕ → ℕ → PlanRow → Bool
old_plan older_than now row = ltb (row.created + older_than) now

-- A pruned session leaves a tombstone behind. The clock is read twice.
unfoldable pub prune : Store → ℕ → ℕ → ℕ → Store × Pruned
unfolding update_where count_where is_stale tombstone_row keep
prune store older_than now closing = (
  record store {
    sessions = update_where (is_stale older_than now) (tombstone_row closing) store.sessions;
    requests = keep (λ row. not (old_request older_than now row)) store.requests;
    plans = keep (λ row. not (old_plan older_than now row)) store.plans;
  },
  record {
    sessions = count_where (is_stale older_than now) store.sessions;
    session_requests = count_where (old_request older_than now) store.requests;
    turn_plans = count_where (old_plan older_than now) store.plans;
  },
)
