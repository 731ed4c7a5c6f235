-- ===== src/Approval/Execute.antt =====
-- The replay of an approved call: handleApprovedToolCall in internal/api/public/handlers.go.
-- The record `Env` is what the handler meets: the clock, the answers of the database and of the
-- upstream tool, the new decision id, and what other requests do to the tables between its own
-- statements (`before_claim`, `before_reread`, `during_call`). `sha256` is utils.HashString.
-- Counters and logs are left out.
pub mod Replay
pub mod Noted
pub mod Records
pub mod Reached
use rbitr.Prelude.{
  ℕ, ◌+◌, ◌*◌, ◌^◌, String, Bool, true, false, not, ◌||◌, Option, none, some, List, [], ◌∷◌, ltb,
  leb, ◌==◌, if◌then◌else◌,
}
use rbitr.Http.{
  Response, failure, reply, blank, ToolResult, tool_response, tool_not_found, connector_missing,
  upstream_timeout, upstream_error,
}
use rbitr.Json.{pos, end}
use rbitr.Approval.{
  Status, approved, executing, executed, ApprovalRequest, ActionDecisionRecord, DecisionReason, Db,
  StoreError, not_found, invalid_state, db_error, is_expired,
}
use rbitr.Approval.Store.{
  coalesce, claim_approval_execution, mark_approval_executed, mark_approval_execution_failed,
  mark_approval_expired, get_approval_for_execution, AdrAnswers, insert_adr,
}

pub record Params : Type 0 where
  pub tenant_id : String
  pub agent_id : String
  pub tool_id : String
  pub request_id : String
  pub request_hash : String
  pub classification_risk : String
  pub classification_type : String
  pub classification_summary : String
  pub approval_id : String
  pub approval_token : String

pub record Env : Type 0 where
  pub now : ℕ
  pub later : ℕ
  pub decision_id : String
  pub lookup_answers : Bool
  pub expire_answers : Bool
  pub claim_answers : Bool
  pub reread_answers : Bool
  pub fail_answers : Bool
  pub mark_answers : Bool
  pub insert_answers : AdrAnswers
  pub before_claim : Db → Db
  pub before_reread : Db → Db
  pub during_call : Db → Db
  pub tool : ToolResult

-- The tables and the response at the end, whether the upstream tool was called, and the reasons of
-- the token abuse notifications that were sent.
pub record Outcome : Type 0 where
  pub db : Db
  pub response : Response
  pub called : Bool
  pub abuse : List String

-- `approvalExecutionRetryWindow`, 60 seconds
abbrev pub retry_window : ℕ
retry_window = 60 * 10 ^ 9

-- `now.Sub(*approval.ExecutingAt) <= approvalExecutionRetryWindow`; a difference below zero passes
unfoldable pub approval_retry_allowed : ApprovalRequest → ℕ → Bool
approval_retry_allowed r now = elim r.executing_at [
  | none ↦ false
  | some t ↦ leb now (t + retry_window)
]

abbrev pub refuse : Db → ℕ → String → Outcome
refuse db status code = record {
  db = db;
  response = failure status code;
  called = false;
  abuse = [];
}

abbrev pub reject : Db → String → String → Outcome
reject db code reason = record {
  db = db;
  response = failure 403 code;
  called = false;
  abuse = reason ∷ [];
}

abbrev pub first_reason_message : List DecisionReason → String
first_reason_message [] = ""
first_reason_message (r ∷ _) = r.message

module _ (sha256 : String → String) (e : Env) (p : Params) where
  granted : List DecisionReason
  granted = record { code = "APPROVED"; message = "Approved execution" } ∷ []

  -- the record of the execution
  pub execution_record : ApprovalRequest → String → ActionDecisionRecord
  execution_record r body_hash =
      let risk = coalesce r.risk p.classification_risk in
      record {
        decision_id = e.decision_id;
        request_id = p.request_id;
        tenant_id = p.tenant_id;
        agent_id = p.agent_id;
        tool_id = p.tool_id;
        action_type = coalesce r.action_type p.classification_type;
        action_risk = risk;
        action_summary = coalesce r.action_summary p.classification_summary;
        decision = "ALLOW";
        decision_version = "approval_execution";
        decision_risk = risk;
        rule_id = coalesce r.rule_id "approval_granted";
        rule_priority = pos 0;
        reasons = granted;
        constraints = end;
        tags = [];
        policy_version = coalesce r.policy_version "unknown";
        reason = first_reason_message granted;
        request_hash = p.request_hash;
        response_hash = body_hash;
        approval_request_id = r.approval_request_id;
        source_decision_id = "";
        created_at = e.later;
      }

  executed_reply : ℕ → String → Response
  executed_reply status body = reply 200 (record blank {
    request_id = p.request_id;
    decision = "ALLOW";
    reason = first_reason_message granted;
    tool_status = status;
    tool_body = body;
  })

  abbrev done : Db → Response → Outcome
  done db response = record { db = db; response = response; called = true; abuse = [] }

  -- after `InsertADR`
  after_insert : ℕ → String → Option StoreError × Db → Outcome
  after_insert status body (none, db) = done db (executed_reply status body)
  after_insert status body (some _, db) = done db (failure 500 "failed to persist decision")

  -- after `MarkApprovalExecuted`
  record_execution : ApprovalRequest → ℕ → String → String → Option StoreError × Db → Outcome
  record_execution r status body hash (some not_found, db) =
      done db (failure 403 "approval_token_invalid")
  record_execution r status body hash (some invalid_state, db) =
      done db (failure 409 "approval_already_claimed")
  record_execution r status body hash (some db_error, db) =
      done db (failure 500 "failed to update approval")
  record_execution r status body hash (none, db) =
      after_insert status body (insert_adr e.insert_answers (execution_record r hash) db)

  fail_execution : Db → String → ℕ → String → Outcome
  fail_execution db error_code status response_code =
      let (_, db') =
        mark_approval_execution_failed e.fail_answers p.tenant_id p.approval_id error_code e.later
          db in
      done db' (failure status response_code)

  after_call : ApprovalRequest → ToolResult → Db → Outcome
  after_call r (tool_response status body hash) db = record_execution r status body hash (
      mark_approval_executed e.mark_answers p.tenant_id p.approval_id p.request_id e.decision_id
        e.later db)
  after_call r upstream_timeout db = fail_execution db "UPSTREAM_TIMEOUT" 504 "upstream_timeout"
  after_call r upstream_error db = fail_execution db "UPSTREAM_ERROR" 502 "upstream_error"
  after_call r tool_not_found db = fail_execution db "UPSTREAM_ERROR" 502 "upstream_error"
  after_call r connector_missing db = fail_execution db "UPSTREAM_ERROR" 502 "upstream_error"

  -- the upstream call and what follows it
  call_tool : ApprovalRequest → Db → Outcome
  call_tool r db = after_call r e.tool (e.during_call db)

  -- a replay of a call that is under way
  resume : ApprovalRequest → Db → Outcome
  resume r db = elim r.executed_at [
    | some _ ↦ refuse db 409 "approval_already_executed"
    | none ↦
        if approval_retry_allowed r e.now
        then call_tool r db
        else refuse db 409 "approval_retry_window_exceeded"
  ]

  -- the state that made the claim fail
  after_reread : Status → ApprovalRequest → Db → Outcome
  after_reread executing latest db = resume latest db
  after_reread executed latest db = refuse db 409 "approval_already_executed"
  after_reread _ latest db = refuse db 409 "approval_already_claimed"

  reread : Db → Outcome
  reread db =
      if e.reread_answers
      then elim (get_approval_for_execution p.tenant_id p.approval_id db) [
        | none ↦ refuse db 500 "approval lookup failed"
        | some latest ↦ after_reread latest.status latest db
      ]
      else refuse db 500 "approval lookup failed"

  abbrev under_way : ApprovalRequest → ApprovalRequest
  under_way r = record r {
    status = executing;
    executing_at = some e.now;
    execution_id = coalesce r.execution_id r.approval_request_id;
  }

  after_claim : ApprovalRequest → Option StoreError × Db → Outcome
  after_claim r (none, db) = call_tool (under_way r) db
  after_claim r (some not_found, db) = refuse db 403 "approval_token_invalid"
  after_claim r (some invalid_state, db) = reread (e.before_reread db)
  after_claim r (some db_error, db) = refuse db 500 "failed to claim approval"

  by_status : Status → ApprovalRequest → Db → Outcome
  by_status approved r db = after_claim r (
      claim_approval_execution e.claim_answers p.tenant_id p.approval_id (sha256 p.approval_token)
        p.request_hash e.now (e.before_claim db))
  by_status executing r db = resume r db
  by_status executed r db = refuse db 409 "approval_already_executed"
  by_status _ r db = refuse db 409 "approval_already_claimed"

  -- the token, the request hash and the expiry, in the order of the code
  check : ApprovalRequest → Db → Outcome
  check r db =
      if not (sha256 p.approval_token == r.approval_token_hash)
      then reject db "approval_token_invalid" "approval_token_invalid"
      else if not (r.request_hash == p.request_hash)
      then reject db "approval_request_hash_mismatch" "approval_request_hash_mismatch"
      else if is_expired r.status || ltb r.expires_at e.now
      then refuse (mark_approval_expired e.expire_answers p.tenant_id p.approval_id e.now db).1 403
          "approval_expired"
      else by_status r.status r db

  pub handle_approved_tool_call : Db → Outcome
  handle_approved_tool_call db =
      if e.lookup_answers
      then elim (get_approval_for_execution p.tenant_id p.approval_id db) [
        | none ↦ reject db "approval_token_invalid" "approval_not_found"
        | some r ↦ check r db
      ]
      else refuse db 500 "approval lookup failed"

-- What a test of the handler computes with.
unfoldable pub replay_code : Unit {0}
unfolding handle_approved_tool_call check by_status after_claim reread after_reread resume call_tool
    after_call fail_execution record_execution after_insert executed_reply execution_record granted
    approval_retry_allowed mark_approval_execution_failed mark_approval_executed
    mark_approval_expired claim_approval_execution get_approval_for_execution insert_adr
replay_code = tt
