-- ===== src/Session/Plans/Reconcile/Errors.antt =====
-- The error vocabulary of the strict sessions (src/jev_router/sessions.py). A refusal's message is
-- left out: its detail names the plan.
use jev_router.Common.{ℕ, String}
use jev_router.Turn.Ledger.{Status}

pub data Code : Type 0 where
  invalid_router_input router_unauthorized session_conflict session_unknown session_closed : Code
  profile_changed no_safe_admission provider_unavailable context_budget_exceeded : Code
  unsupported_profile request_already_completed execution_outcome_unknown turn_not_settled : Code
  effort_history_mismatch : Code

-- `ERROR_STATUS`
unfoldable pub error_status : Code → ℕ
error_status invalid_router_input = 400
error_status router_unauthorized = 401
error_status session_conflict = 409
error_status session_unknown = 409
error_status session_closed = 410
error_status profile_changed = 409
error_status no_safe_admission = 422
error_status provider_unavailable = 503
error_status context_budget_exceeded = 422
error_status unsupported_profile = 422
error_status request_already_completed = 409
error_status execution_outcome_unknown = 409
error_status turn_not_settled = 409
error_status effort_history_mismatch = 409

pub record SessionError : Type 0 where
  pub code : Code
  pub http_status : ℕ
  pub plan_id : String
  pub turn_id : String
  pub status : Status

-- `SessionError(code, …, detail={plan_id, turn_id, status})`
unfoldable pub raised : Code → String → String → Status → SessionError
unfolding error_status
raised code plan_id turn_id status = record {
  code = code;
  http_status = error_status code;
  plan_id = plan_id;
  turn_id = turn_id;
  status = status;
}
