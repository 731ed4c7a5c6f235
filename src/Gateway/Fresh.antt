-- ===== src/Gateway/Fresh.antt =====
-- A call without approval headers, in handleToolCall of internal/api/public/handlers.go: the tenant's
-- risk, the files that its arguments name, the policies, the limits and the argument constraints.
-- The statements of others that fall between its own are left out.
use rbitr.Prelude.{ℕ, String, false, ◌==◌, if◌then◌else◌, Option, none, some, [], ◌∷◌, Unicode}
use rbitr.Json.{pos, number, text, Value, Members, end, set_member}
use rbitr.Http.{failure}
use rbitr.Classification as Classification
use rbitr.Classification.{Url}
use rbitr.Classification.Paths.{FilePathResult, detect_file_paths, validate_sandbox}
use rbitr.Policy as Policy
use rbitr.Policy.Evaluate.{EvalOutcome, evaluated, invalid_output, eval_failed}
use rbitr.Limits.{RateLimitKey, Counters}
use rbitr.Limits.Enforce.{Verdict, within, violates, check_failed, enforce_rate_limit}
use rbitr.Arguments.{ArgConstraintViolation}
use rbitr.Arguments.Enforce.{enforce_argument_constraints}
use rbitr.Arguments.Recorded.{parse_rest_arguments}
use rbitr.Gateway.{policy_input, with_risk_override}
use rbitr.Gateway.Env.{
  ToolCallRequest, RiskOverride, overridden, not_overridden, lookup_failed, ProvenanceContext,
  GateEnv, Outside, Tables, Answer,
}
use rbitr.Gateway.Request.{filter_headers, hash_body, hash_canonical}
use rbitr.Gateway.Shadow.{tenant_enforcement_mode, with_matched_rules_constraint}
use rbitr.Gateway.Deny.{Call, answer, rule_priority, deny_rate_limit, deny_arguments}
use rbitr.Gateway.Decide.{decide}

abbrev pub refuse : Tables → ℕ → String → Answer
refuse t status error = answer t t.db (failure status error) false

unfoldable pub inject_provenance_input : Members → ProvenanceContext → Members
inject_provenance_input input prov =
    if prov.source_tenant_id == ""
    then input
    else set_member "chain_depth" (number (pos prov.chain_depth))
        (set_member "source_tenant_id" (text prov.source_tenant_id) input)

abbrev file_message : FilePathResult → String
file_message r =
    if r.has_traversal
    then "file path traversal detected"
    else elim r.denied_paths [ [] ↦ "" | _ ∷ _ ↦ "file access outside tenant sandbox" ]

-- The result that stands for an invalid output of the policy.
abbrev pub invalid_result : String → String → Policy.Result
invalid_result risk policy_version = record {
  version = "invalid";
  decision = "DENY";
  risk = risk;
  rule = record { id = "policy_invalid"; priority = rule_priority };
  reasons = record { code = "POLICY_OUTPUT_INVALID"; message = "policy output invalid" } ∷ [];
  constraints = end;
  tags = [];
  matched_rules = [];
  policy_version = policy_version;
}

-- no decision is a denial
abbrev with_default : Policy.Result → Policy.Result
with_default r =
    if r.decision == ""
    then record r {
      decision = "DENY";
      rule = record { id = "rule_default_deny"; priority = r.rule.priority };
      reasons = record { code = "DEFAULT_DENY"; message = "Default deny" } ∷ [];
    }
    else r

-- A decision other than the empty one, whose constraints list the rules that matched.
unfoldable pub settled : Policy.Result → Policy.Result
settled r =
    let s = with_default r in
    record s { constraints = with_matched_rules_constraint s.constraints s.matched_rules }

module _ ⦃u : Unicode⦄ ⦃l : Url⦄ (o : Outside) (e : GateEnv) where
  unfoldable pub check_file_access : Value → String → String
  unfolding detect_file_paths validate_sandbox
  check_file_access arguments tenant_id = elim (detect_file_paths arguments) [
    | [] ↦ ""
    | p ∷ ps ↦ file_message (validate_sandbox (p ∷ ps) tenant_id)
  ]

  unfoldable pub request_hash : String → String → ToolCallRequest → String
  request_hash tenant_id agent_id p = hash_canonical o.sha256 (record {
    tenant_id = tenant_id;
    agent_id = agent_id;
    tool_id = e.tool_id;
    method = p.http_method;
    path = p.path;
    query = p.query;
    headers = filter_headers p.headers [];
    body_hash = hash_body o.sha256 p.body;
    idempotency_key = e.idempotency_key;
  })

  abbrev pub arguments_of : ToolCallRequest → Value
  arguments_of p = parse_rest_arguments o.parse_json p.body

  module _ (tenant_id agent_id : String) (p : ToolCallRequest) where
    abbrev pub call_of : Classification.Result → String → Call
    call_of k mode = record {
      tenant_id = tenant_id;
      agent_id = agent_id;
      request_hash = request_hash tenant_id agent_id p;
      classified = k;
      mode = mode;
    }

    abbrev pub after_arguments :
        Tables → Call → Policy.Result → Option ArgConstraintViolation → Answer
    after_arguments t c r none = decide o.sha256 e c t r
    after_arguments t c r (some v) = deny_arguments e c t r v

    unfoldable pub check_arguments : Tables → Call → Policy.Result → Answer
    unfolding parse_rest_arguments
    check_arguments t c r = after_arguments t c r (
        enforce_argument_constraints o.compile (arguments_of p) e.arg_flag e.arg_fallback
          r.constraints)

    abbrev pub after_limits : Tables → Call → Policy.Result → Verdict × Counters → Answer
    after_limits t c r (check_failed, counters) =
        refuse (record t { counters = counters }) 500 "rate limit check failed"
    after_limits t c r (violates v, counters) =
        deny_rate_limit e c (record t { counters = counters }) r v
    after_limits t c r (within, counters) = check_arguments (record t { counters = counters }) c r

    abbrev pub limit_key : Classification.Result → RateLimitKey
    limit_key k = record {
      tenant_id = tenant_id;
      agent_id = agent_id;
      tool_id = e.tool_id;
      action_type = k.action_type;
    }

    unfoldable pub check_limits : Tables → Call → Policy.Result → Answer
    unfolding check_arguments
    check_limits t c r = after_limits t c r (
        enforce_rate_limit o.parse_int e.rate_limits e.rate_config_answers e.counter_answers
          e.rate_config (limit_key c.classified) r.constraints e.now t.counters)

    abbrev pub with_mode : Tables → Classification.Result → Policy.Result → Option String → Answer
    with_mode t k r none = refuse t 500 "failed to load tenant enforcement mode"
    with_mode t k r (some mode) = check_limits t (call_of k mode) r

    abbrev pub after_evaluation : Tables → Classification.Result → EvalOutcome → Answer
    after_evaluation t k (evaluated r) =
        with_mode t k (settled r) (tenant_enforcement_mode e.shadow_feature e.tenant_mode)
    after_evaluation t k (invalid_output reason version) =
        with_mode t k (settled (invalid_result k.action_risk version))
          (tenant_enforcement_mode e.shadow_feature e.tenant_mode)
    after_evaluation t k eval_failed = refuse t 500 "policy evaluation failed"

    abbrev pub input_of : Classification.Result → Members
    input_of k =
        let input = policy_input tenant_id agent_id e.tool_id p.http_method p.path k in
        if e.cross_tenant_chain then inject_provenance_input input e.provenance else input

    abbrev pub file_refusal : String
    file_refusal = if e.file_governance then check_file_access (arguments_of p) tenant_id else ""

    abbrev pub with_policy :
        Tables → Classification.Result → Option (Members → EvalOutcome) → Answer
    with_policy t k none = refuse t 500 "policy evaluator not configured"
    with_policy t k (some policy) =
        if file_refusal == ""
        then after_evaluation t k (policy (input_of k))
        else refuse t 403 file_refusal

    abbrev pub with_risk : Tables → Classification.Result → RiskOverride → Answer
    with_risk t k lookup_failed = refuse t 500 "risk override lookup failed"
    with_risk t k (overridden risk) = with_policy t (with_risk_override (some risk) k) e.policy
    with_risk t k not_overridden = with_policy t (with_risk_override none k) e.policy

    -- a call without approval headers
    unfoldable pub handle_fresh : Tables → Classification.Result → Answer
    unfolding policy_input with_risk_override inject_provenance_input settled
        tenant_enforcement_mode check_limits check_file_access request_hash
    handle_fresh t k = with_risk t k e.risk_override
