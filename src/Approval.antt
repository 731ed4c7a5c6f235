-- ===== src/Approval.antt =====
-- An approval request and the tables that hold it: internal/models/models.go (ApprovalRequest,
-- ActionDecisionRecord, DecisionReason) and the rows of rbitr.approval_requests and
-- rbitr.action_decisions. Times are nanoseconds since a fixed origin. A nullable text column is the
-- empty text where it is NULL, as the code reads it. The column request_context is left out: nothing
-- modelled here reads it.
pub mod Store
pub mod Execute
pub mod Lifecycle
pub mod History
pub mod Claims
use rbitr.Prelude.{ℕ, String, Option, List, Bool, true, false}
use rbitr.Json.{ℤ, Members}

-- The values of the column status.
pub data Status : Type 0 where
  pending approved denied revoked executing executed failed expired : Status

pub record DecisionReason : Type 0 where
  pub code : String
  pub message : String

pub record ApprovalRequest : Type 0 where
  pub approval_request_id : String
  pub tenant_id : String
  pub agent_id : String
  pub tool_id : String
  pub action_type : String
  pub request_hash : String
  pub status : Status
  pub approval_token_hash : String
  pub expires_at : ℕ
  pub created_at : ℕ
  pub policy_version : String
  pub decided_at : Option ℕ
  pub decided_by : String
  pub decision_comment : String
  pub executing_at : Option ℕ
  pub execution_id : String
  pub executed_at : Option ℕ
  pub executed_request_id : String
  pub executed_decision_id : String
  pub failed_at : Option ℕ
  pub last_error_code : String
  pub request_decision_id : String
  pub action_summary : String
  pub risk : String
  pub rule_id : String
  pub reasons : List DecisionReason

-- The fields of a decision record that tell one decision from another.
pub record ActionDecisionRecord : Type 0 where
  pub decision_id : String
  pub request_id : String
  pub tenant_id : String
  pub agent_id : String
  pub tool_id : String
  pub action_type : String
  pub action_risk : String
  pub action_summary : String
  pub decision : String
  pub decision_version : String
  pub decision_risk : String
  pub rule_id : String
  pub rule_priority : ℤ
  pub reasons : List DecisionReason
  pub constraints : Members
  pub tags : List String
  pub policy_version : String
  pub reason : String
  pub request_hash : String
  pub response_hash : String
  pub approval_request_id : String
  pub source_decision_id : String
  pub created_at : ℕ

pub record Db : Type 0 where
  pub approvals : List ApprovalRequest
  pub decisions : List ActionDecisionRecord

-- The errors of the store that callers tell apart.
pub data StoreError : Type 0 where
  not_found invalid_state db_error : StoreError

abbrev pub is_pending : Status → Bool
is_pending pending = true
is_pending _ = false

abbrev pub is_approved : Status → Bool
is_approved approved = true
is_approved _ = false

abbrev pub is_executing : Status → Bool
is_executing executing = true
is_executing _ = false

abbrev pub is_expired : Status → Bool
is_expired expired = true
is_expired _ = false
