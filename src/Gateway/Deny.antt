-- ===== src/Gateway/Deny.antt =====
-- The denials of handleToolCall in internal/api/public/handlers.go, which are recorded, and the calls
-- of the tool that shadow mode makes after them: executeRESTShadowDeny of shadow_mode.go.
use rbitr.Prelude.{
  ℕ, String, Bool, true, false, if◌then◌else◌, Option, none, some, [], ◌∷◌, List, Unicode,
}
use rbitr.Json.{ℤ, pos, number, text, Members, end, member}
use Prim.Native.String
use rbitr.Http.{
  Response, failure, reply, payload, blank, ToolResult, tool_response, tool_not_found,
  connector_missing,
}
use rbitr.Approval.{ActionDecisionRecord, DecisionReason, Db, StoreError}
use rbitr.Approval.Store.{insert_adr}
use rbitr.Approval.Execute.{first_reason_message}
use rbitr.Classification as Classification
use rbitr.Policy as Policy
use rbitr.Limits.Enforce.{RateLimitViolation}
use rbitr.Arguments.{ArgConstraintViolation}
use rbitr.Arguments.Recorded.{arg_constraint_rule_id, with_arg_constraint_failures}
use rbitr.Gateway.Env.{GateEnv, Tables, Answer}
use rbitr.Gateway.Shadow.{
  is_shadow_mode, with_rate_limit_constraint, build_shadow_decision_metadata,
}

-- What the handler knows of the call when it has a decision: `classified` has the tenant's risk.
pub record Call : Type 0 where
  pub tenant_id : String
  pub agent_id : String
  pub request_hash : String
  pub classified : Classification.Result
  pub mode : String

-- `rulePriority`
abbrev pub rule_priority : ℤ
rule_priority = pos 1000

abbrev pub answer : Tables → Db → Response → Bool → Answer
answer t db response called = record {
  tables = record t { db = db };
  response = response;
  called = called;
}

abbrev pub executed : Tables → Db → Response → Answer
executed t db response = answer t db response true

-- the answer where the tool gave none
abbrev pub tool_failure : ToolResult → Response
tool_failure tool_not_found = failure 404 "tool not found"
tool_failure connector_missing = failure 500 "connector not configured"
tool_failure _ = failure 502 "tool execution failed"

module _ ⦃u : Unicode⦄ (e : GateEnv) (c : Call) where
  -- the fields of a record that all branches share
  abbrev pub decision_record :
      Policy.Result
      → String
      → String
      → ℤ
      → List DecisionReason
      → Members
      → String
      → String
      → ActionDecisionRecord
  decision_record r decision rule_id priority reasons constraints response_hash approval = record {
    decision_id = e.new_decision_id;
    request_id = e.request_id;
    tenant_id = c.tenant_id;
    agent_id = c.agent_id;
    tool_id = e.tool_id;
    action_type = c.classified.action_type;
    action_risk = c.classified.action_risk;
    action_summary = c.classified.action_summary;
    decision = decision;
    decision_version = r.version;
    decision_risk = r.risk;
    rule_id = rule_id;
    rule_priority = priority;
    reasons = reasons;
    constraints = constraints;
    tags = r.tags;
    policy_version = r.policy_version;
    reason = first_reason_message reasons;
    request_hash = c.request_hash;
    response_hash = response_hash;
    approval_request_id = approval;
    source_decision_id = e.provenance.source_decision_id;
    created_at = e.now;
  }

  abbrev pub tool_reply : ℕ → String → String → List DecisionReason → Response
  tool_reply status body decision reasons = reply 200 (record blank {
    request_id = e.request_id;
    decision = decision;
    reason = first_reason_message reasons;
    tool_status = status;
    tool_body = body;
  })

  abbrev pub shadow_reply : ℕ → String → List DecisionReason → Members → Response
  shadow_reply status body reasons meta = reply 200 (record blank {
    request_id = e.request_id;
    decision = "DENY";
    reason = first_reason_message reasons;
    tool_status = status;
    tool_body = body;
    shadow_denied = true;
    rbitr_shadow = meta;
  })

  abbrev pub shadow_response : ToolResult → List DecisionReason → Members → Response
  shadow_response (tool_response status body hash) reasons meta =
      shadow_reply status body reasons meta
  shadow_response result reasons meta = tool_failure result

  unfoldable pub execute_rest_shadow_deny : Tables → Db → List DecisionReason → Members → Answer
  execute_rest_shadow_deny t db reasons meta = executed t db (shadow_response e.tool reasons meta)

  -- A denial, once its record is inserted: shadow mode calls the tool all the same.
  abbrev pub after_denial :
      Tables → List DecisionReason → Members → Response → Option StoreError × Db → Answer
  after_denial t reasons meta response (some error, db) =
      answer t db (failure 500 "failed to persist decision") false
  after_denial t reasons meta response (none, db) =
      if is_shadow_mode c.mode
      then execute_rest_shadow_deny t db reasons meta
      else answer t db response false

  unfoldable pub deny :
      Tables → Policy.Result → String → ℤ → List DecisionReason → Members → Response → Answer
  unfolding is_shadow_mode execute_rest_shadow_deny build_shadow_decision_metadata
  deny t r rule_id priority reasons constraints response =
      after_denial t reasons
        (build_shadow_decision_metadata rule_id r.risk r.policy_version reasons constraints)
        response
        (insert_adr e.adr_answers
          (decision_record r "DENY" rule_id priority reasons constraints "" "") t.db)

  abbrev pub denied_reply : List DecisionReason → Response
  denied_reply reasons = reply 403 (record blank {
    request_id = e.request_id;
    decision = "DENY";
    reason = first_reason_message reasons;
  })

  abbrev pub rate_limit_reasons : List DecisionReason
  rate_limit_reasons = record { code = "RATE_LIMIT_EXCEEDED"; message = "Rate limit exceeded" } ∷ []

  unfoldable pub deny_rate_limit : Tables → Policy.Result → RateLimitViolation → Answer
  unfolding deny with_rate_limit_constraint
  deny_rate_limit t r v =
      deny t r (String.◌++◌ "rate_limit_" v.window) rule_priority rate_limit_reasons
        (with_rate_limit_constraint r.constraints v)
        (payload 429 (
          member "code" (text "RATE_LIMIT_EXCEEDED") (
            member "window" (text v.window) (
              member "limit" (number (pos v.limit)) (
                member "retry_after_seconds" (number (pos v.retry_after_seconds))
                  (member "scope" (text v.scope) end))))))

  abbrev pub violation_reasons : ArgConstraintViolation → List DecisionReason
  violation_reasons v = record { code = v.reason_code; message = v.message } ∷ []

  unfoldable pub deny_arguments : Tables → Policy.Result → ArgConstraintViolation → Answer
  unfolding deny arg_constraint_rule_id with_arg_constraint_failures
  deny_arguments t r v =
      deny t r (arg_constraint_rule_id v) rule_priority (violation_reasons v)
        (with_arg_constraint_failures r.constraints v) (denied_reply (violation_reasons v))

  -- the record of a decision of the policies
  abbrev pub policy_record : Policy.Result → String → String → ActionDecisionRecord
  policy_record r response_hash approval =
      decision_record r r.decision r.rule.id r.rule.priority r.reasons r.constraints response_hash
        approval

  unfoldable pub deny_policy : Tables → Policy.Result → Answer
  unfolding deny
  deny_policy t r =
      deny t r r.rule.id r.rule.priority r.reasons r.constraints (denied_reply r.reasons)
