-- ===== src/Gateway/Decide.antt =====
-- The end of handleToolCall in internal/api/public/handlers.go: what is recorded, asked or called for
-- a decision and the limits, and executeRESTShadowDeny of shadow_mode.go.
use rbitr.Prelude.{ℕ, String, false, ◌==◌, if◌then◌else◌, Option, none, some, Unicode}
use rbitr.Json.{text, end, member}
use rbitr.Http.{Response, failure, reply, payload, blank, ToolResult, tool_response}
use rbitr.Approval.{pending, ApprovalRequest, Db, StoreError}
use rbitr.Approval.Store.{insert_adr, insert_approval_request}
use rbitr.Approval.Execute.{first_reason_message}
use rbitr.Policy as Policy
use rbitr.License.{check_feature_access}
use rbitr.Gateway.Env.{GateEnv, Tables, Answer}
use rbitr.Gateway.Expiry.{approval_ttl}
use rbitr.Gateway.Deny.{
  Call, answer, executed, tool_failure, tool_reply, policy_record, deny_policy,
}

module _ ⦃u : Unicode⦄ (sha256 : String → String) (e : GateEnv) (c : Call) where
  abbrev pub risk_or : String → String → String
  risk_or risk other = if risk == "" then other else risk

  abbrev pub new_approval : Policy.Result → String → ApprovalRequest
  new_approval r token = record {
    approval_request_id = e.new_approval_id;
    tenant_id = c.tenant_id;
    agent_id = c.agent_id;
    tool_id = e.tool_id;
    action_type = c.classified.action_type;
    request_hash = c.request_hash;
    status = pending;
    approval_token_hash = sha256 token;
    expires_at = approval_ttl e.now e.default_ttl r.constraints;
    created_at = e.now;
    policy_version = r.policy_version;
    decided_at = none;
    decided_by = "";
    decision_comment = "";
    executing_at = none;
    execution_id = "";
    executed_at = none;
    executed_request_id = "";
    executed_decision_id = "";
    failed_at = none;
    last_error_code = "";
    request_decision_id = e.new_decision_id;
    action_summary = c.classified.action_summary;
    risk = risk_or r.risk c.classified.action_risk;
    rule_id = r.rule.id;
    reasons = r.reasons;
  }

  abbrev pub approval_reply : Policy.Result → String → Response
  approval_reply r token = reply 409 (record blank {
    error = "approval_required";
    request_id = e.request_id;
    decision = "REQUIRE_APPROVAL";
    reason = first_reason_message r.reasons;
    approval_request_id = e.new_approval_id;
    approval_token = token;
    expires_at = approval_ttl e.now e.default_ttl r.constraints;
    action_type = c.classified.action_type;
    risk = risk_or r.risk c.classified.action_risk;
  })

  abbrev pub after_record : Tables → Response → Option StoreError × Db → Answer
  after_record t response (some error, db) =
      answer t db (failure 500 "failed to persist decision") false
  after_record t response (none, db) = answer t db response false

  abbrev pub after_approval : Tables → Policy.Result → String → Option StoreError × Db → Answer
  after_approval t r token (some error, db) =
      answer t db (failure 500 "failed to persist approval") false
  after_approval t r token (none, db) =
      after_record t (approval_reply r token)
        (insert_adr e.adr_answers (policy_record e c r "" e.new_approval_id) db)

  abbrev pub with_token : Tables → Policy.Result → Option String → Answer
  with_token t r none = answer t t.db (failure 500 "failed to generate approval token") false
  with_token t r (some token) =
      after_approval t r token
        (insert_approval_request e.approval_answers (new_approval r token) t.db)

  unfoldable pub require_approval : Tables → Policy.Result → Answer
  unfolding approval_ttl
  require_approval t r =
      let violation = check_feature_access e.license "approval_workflows" in
      if violation == ""
      then with_token t r e.new_token
      else answer t t.db
          (payload 402
            (member "error" (text "feature_locked") (member "message" (text violation) end)))
          false

  abbrev pub after_execution : Tables → Policy.Result → ℕ → String → Option StoreError × Db → Answer
  after_execution t r status body (some error, db) =
      executed t db (failure 500 "failed to persist decision")
  after_execution t r status body (none, db) =
      executed t db (tool_reply e c status body "ALLOW" r.reasons)

  abbrev pub after_tool : Tables → Policy.Result → ToolResult → Answer
  after_tool t r (tool_response status body hash) =
      after_execution t r status body (insert_adr e.adr_answers (policy_record e c r hash "") t.db)
  after_tool t r result = executed t t.db (tool_failure result)

  unfoldable pub allow : Tables → Policy.Result → Answer
  allow t r = after_tool t r e.tool

  -- the switch over the decision
  unfoldable pub decide : Tables → Policy.Result → Answer
  unfolding deny_policy require_approval allow
  decide t r =
      if r.decision == "DENY"
      then deny_policy e c t r
      else if r.decision == "REQUIRE_APPROVAL"
      then require_approval t r
      else if r.decision == "ALLOW"
      then allow t r
      else answer t t.db (failure 500 "unknown decision") false
