-- ===== src/Gateway/Handle.antt =====
-- handleToolCall in internal/api/public/handlers.go: authentication, quota, decoding, classification
-- and approval headers, in the order of the code, and then a fresh call or a replay. Metrics, logs,
-- notifications and tickets are left out.
use rbitr.Prelude.{
  String, true, false, ◌&&◌, ◌||◌, ◌==◌, if◌then◌else◌, ltb, Option, none, some, Unicode,
  byte_length, to_upper, trim_space,
}
use rbitr.Json.{pos, number, text, end, member}
use rbitr.Http.{Response, payload}
use rbitr.Approval.Execute as Execute
use rbitr.Classification as Classification
use rbitr.Classification.{Url}
use rbitr.Classification.Classify.{classify}
use rbitr.License.Quota.{
  Meters, QuotaVerdict, within_quota, over_quota, quota_failed, UsageQuotaViolation,
  enforce_usage_quota,
}
use rbitr.Gateway.Env.{
  ToolCallRequest, Authentication, as_tenant, unauthorized, invalid_agent_id, forbidden, GateEnv,
  Outside, Tables, Answer,
}
use rbitr.Gateway.Deny.{answer}
use rbitr.Gateway.Fresh.{refuse, request_hash, handle_fresh}

-- `authError`
abbrev auth_error : Tables → Authentication → Answer
auth_error t unauthorized = refuse t 401 "unauthorized"
auth_error t invalid_agent_id =
    refuse t 400 "invalid agent_id: must be 1-128 chars, alphanumeric/underscore/dash/dot only"
auth_error t forbidden = refuse t 403 "forbidden"
auth_error t _ = refuse t 500 "auth error"

abbrev quota_response : UsageQuotaViolation → Response
quota_response v = payload 429 (
    member "error" (text "QUOTA_EXCEEDED") (
      member "message" (text v.message) (
        member "limit" (number v.limit)
          (member "used" (number (pos v.used)) (member "period" (text v.period) end)))))

module _ ⦃u : Unicode⦄ ⦃l : Url⦄ (o : Outside) (e : GateEnv) where
  -- A call once it is decoded, and its tenant and agent.
  abbrev pub normalized : ToolCallRequest → ToolCallRequest
  normalized p = record p { http_method = to_upper (trim_space p.http_method) }

  module _ (tenant_id agent_id : String) (p : ToolCallRequest) where
    abbrev pub params_of : Classification.Result → Execute.Params
    params_of k = record {
      tenant_id = tenant_id;
      agent_id = agent_id;
      tool_id = e.tool_id;
      request_id = e.request_id;
      request_hash = request_hash o e tenant_id agent_id p;
      classification_risk = k.action_risk;
      classification_type = k.action_type;
      classification_summary = k.action_summary;
      approval_id = e.approval_id;
      approval_token = e.approval_token;
    }

    abbrev pub of_replay : Tables → Execute.Outcome → Answer
    of_replay t r = answer t r.db r.response r.called

    -- a call with approval headers is a replay
    unfoldable pub dispatch : Tables → Classification.Result → Answer
    unfolding handle_fresh
    dispatch t k =
        if e.approval_id == "" && e.approval_token == ""
        then handle_fresh o e tenant_id agent_id p t k
        else if e.approval_id == "" || e.approval_token == ""
        then refuse t 400 "approval headers required"
        else of_replay t (Execute.handle_approved_tool_call o.sha256 e.replay (params_of k) t.db)

    unfoldable pub accept : Tables → Answer
    unfolding dispatch
    accept t =
        if p.http_method == "" || p.path == ""
        then refuse t 400 "http_method and path required"
        else if ltb e.body_limit (byte_length p.body)
        then refuse t 413 "body too large"
        else dispatch t (classify e.tool_id p.http_method p.path p.query)

  abbrev pub decode : String → String → Tables → Option ToolCallRequest → Answer
  decode tenant_id agent_id t none = refuse t 400 "invalid request body"
  decode tenant_id agent_id t (some p) = accept tenant_id agent_id (normalized p) t

  abbrev pub after_quota : String → String → Tables → QuotaVerdict × Meters → Answer
  after_quota tenant_id agent_id t (quota_failed, meters) =
      refuse (record t { meters = meters }) 500 "usage quota check failed"
  after_quota tenant_id agent_id t (over_quota v, meters) =
      answer (record t { meters = meters }) t.db (quota_response v) false
  after_quota tenant_id agent_id t (within_quota, meters) =
      decode tenant_id agent_id (record t { meters = meters }) e.decoded

  abbrev pub with_auth : Tables → Authentication → Answer
  with_auth t (as_tenant tenant_id agent_id) = after_quota tenant_id agent_id t (
      enforce_usage_quota e.license true e.meter_answers
        (record { tenant_id = tenant_id; period = e.period }) t.meters)
  with_auth t refused = auth_error t refused

  unfoldable pub handle_tool_call : Tables → Answer
  unfolding accept
  handle_tool_call t = with_auth t e.authenticated
