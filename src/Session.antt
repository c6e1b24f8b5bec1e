-- ===== src/Session.antt =====
-- The strict session store (src/jev_router/sessions.py): the rows of its tables and the tables
-- together. A clock reading is a whole number of ticks. A column that no operation reads or writes
-- by name is an entry of `columns`, as text, and NULL is no entry.
pub mod Claims
pub mod Contract
pub mod Requests
pub mod Plans
use jev_router.Common.{ℕ, String, Bool, List, Option, none, some}
use jev_router.Turn.Ledger.{Status, RowAction}

-- `STATES`
pub data State : Type 0 where
  prepared active blocked closed : State

-- `REQUEST_STATES`
pub data Outcome : Type 0 where
  in_flight accepted completed rejected stream_failed unknown : Outcome

-- A row of the table `sessions`.
pub record SessionRow : Type 0 where
  pub session_id : String
  pub owner : String
  pub state : State
  pub version : ℕ
  pub tombstone : Bool
  pub base_effort : Option String
  pub effective_effort : Option String
  pub expected_effort : Option String
  pub confirmed_effort : Option String
  pub effort_lineage : Option String
  pub blocked_reason : Option String
  pub compaction_epoch : Option ℕ
  pub compacted_at : Option ℕ
  pub compaction_state : Option String
  pub turn_count : Option ℕ
  pub escalation_count : Option ℕ
  pub corrective_count : Option ℕ
  pub feedback_verdict : Option String
  pub created : ℕ
  pub last_seen : Option ℕ
  pub closed_at : Option ℕ
  pub columns : List (String × String)

-- A row of the table `session_requests`.
pub record RequestRow : Type 0 where
  pub id : ℕ
  pub session_id : String
  pub request_id : String
  pub fingerprint : String
  pub status : Outcome
  pub created : ℕ
  pub updated : ℕ
  pub decision_id : Option String
  pub upstream_status : Option ℕ

-- A row of the table `turn_plans`.
pub record PlanRow : Type 0 where
  pub id : ℕ
  pub session_id : String
  pub plan_id : String
  pub turn_id : String
  pub sequence : ℕ
  pub action : RowAction
  pub status : Status
  pub to_effort : Option String
  pub confirmed_effort : Option String
  pub reconciled : Option String
  pub compaction_epoch : Option ℕ
  pub created : ℕ
  pub updated : ℕ
  pub columns : List (String × String)

-- The tables, and the next value of each AUTOINCREMENT key.
pub record Store : Type 0 where
  pub sessions : List SessionRow
  pub requests : List RequestRow
  pub plans : List PlanRow
  pub next_request : ℕ
  pub next_plan : ℕ

-- `SessionRoutingCfg`, as far as the store reads it
pub record SessionRoutingCfg : Type 0 where
  pub max_inflight_per_session : ℕ
  pub prepared_ttl_seconds : ℕ
  pub max_request_history : ℕ
