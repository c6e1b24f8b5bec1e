-- ===== src/Features.antt =====
-- What a request looks like to the rules (src/jev_router/features.py); the fields that routing
-- reads. Reading them off a request body is not modelled.
use jev_router.Common.{ℕ, ◌+◌, Bool, String, List}

pub record Features : Type 0 where
  pub message_count : ℕ
  pub est_tokens : ℕ
  pub has_tools : Bool
  pub tool_names : List String
  pub has_images : Bool
  pub has_code : Bool
  pub languages : List String
  pub client : String
  pub stream : Bool
  pub max_tokens : ℕ

-- Prompt plus the room the answer may need.
unfoldable pub budget_tokens : Features → ℕ
budget_tokens features = features.est_tokens + features.max_tokens
