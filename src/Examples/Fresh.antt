-- ===== src/Examples/Fresh.antt =====
-- Calls of the gateway without and with an approval.
use rbitr.Gateway.Request.{filter_headers}
use rbitr.Gateway.Request.{hash_body}
use rbitr.Gateway.Request.{hash_canonical}
use rbitr.Approval.Store.{set_row}
use rbitr.Json.{get}
use rbitr.Approval.Store.{insert_approval_request}
use rbitr.License.{check_feature_access}
use rbitr.Approval.Store.{insert_adr, has_decision}
use rbitr.Gateway.Decide.{decide}
use rbitr.Arguments.Enforce.{enforce_argument_constraints}
use rbitr.Limits.Enforce.{enforce_rate_limit}
use rbitr.Prelude.{
  ◌*◌, ◌^◌, String, true, false, ◌≡◌, ◌+◌, ◌↔◌, ◌||◌, ◌<◌, refl, none, some, [], ◌∷◌, Unicode,
  ascii, to_upper, trim_space, contains_char, ◌==◌, ◌≢◌,
}
use rbitr.Json.{pos, end}
use rbitr.Http.{blank, reply, tool_response, ToolCallResponse}
use rbitr.Approval.Store.{approve_approval_request}
use rbitr.Approval.Execute.{Params, Env, handle_approved_tool_call, replay_code}
use rbitr.Classification.{Url}
use rbitr.Classification as Classification
use rbitr.Policy as Policy
use rbitr.Policy.Evaluate.{evaluated}
use rbitr.License.{defaults_for_tier, has_feature, merge_over_defaults, free_tier_defaults}
use rbitr.License.Quota.{MeterKey, get_usage_meter, within_quota, enforce_usage_quota}
use rbitr.License.Tiers.{has_feature-merge_over_defaults, after_calls, enforce_usage_quota_iff}
use rbitr.Gateway.Env.{
  ToolCallRequest, as_tenant, not_overridden, no_tenant_config, GateEnv, Outside, Tables,
}
use rbitr.Gateway.Request.{CanonicalRequest, canonical_text}
use rbitr.Gateway.Injective.{SameCall, Plain, canonical_text_inj}
use rbitr.Gateway.Deny.{Call}
use rbitr.Gateway.Decide.{require_approval}
use rbitr.Gateway.Fresh.{request_hash, handle_fresh}
use rbitr.Gateway.Handle.{normalized, handle_tool_call}
use rbitr.Gateway.Entry.{Entered, handle_tool_call-called}
use rbitr.Gateway.Recorded.{IsRecorded}
use rbitr.Gateway.Reports.{handle_fresh-IsRecorded}
use rbitr.Gateway.Unrecorded.{require_approval-unrecorded}

instance plain_url : Url
plain_url = record { parsed_path = λ p. some p; parsed_query = λ q. none }

instance plain_letters : Unicode
plain_letters = ascii

-- No hash, no patterns, no JSON and no numbers.
abbrev outside : Outside
outside = record {
  sha256 = λ s. s;
  compile = λ p. none;
  parse_json = λ s. none;
  parse_int = λ s. none;
}

abbrev listing : ToolCallRequest
listing = record { http_method = "get"; path = "/accounts"; query = ""; headers = []; body = "" }

abbrev replay_env : Env
replay_env = record {
  now = 5;
  later = 6;
  decision_id = "d_2";
  lookup_answers = true;
  expire_answers = true;
  claim_answers = true;
  reread_answers = true;
  fail_answers = true;
  mark_answers = true;
  insert_answers = record { exists = true; insert = true };
  before_claim = λ db. db;
  before_reread = λ db. db;
  during_call = λ db. db;
  tool = tool_response 200 "ok" "h";
}

abbrev result_of : String → Policy.Result
result_of decision = record {
  version = "1";
  decision = decision;
  risk = "LOW";
  rule = record { id = "r1"; priority = pos 1 };
  reasons = [];
  constraints = end;
  tags = [];
  matched_rules = [];
  policy_version = "v1";
}

abbrev env_of : String → GateEnv
env_of decision = record {
  authenticated = as_tenant "acme" "bot";
  license = none;
  meter_answers = true;
  period = "2026-01";
  tool_id = "crm";
  request_id = "q1";
  idempotency_key = "";
  decoded = some listing;
  body_limit = 100;
  approval_id = "";
  approval_token = "";
  replay = replay_env;
  risk_override = not_overridden;
  policy = some (λ input. evaluated (result_of decision));
  file_governance = false;
  cross_tenant_chain = false;
  provenance = record { source_tenant_id = ""; source_decision_id = ""; chain_depth = 0 };
  shadow_feature = false;
  tenant_mode = no_tenant_config;
  rate_limits = false;
  rate_config_answers = true;
  rate_config = none;
  counter_answers = true;
  arg_flag = some false;
  arg_fallback = false;
  adr_answers = record { exists = true; insert = true };
  approval_answers = true;
  new_decision_id = "d_1";
  new_approval_id = "ar_1";
  new_token = some "secret";
  default_ttl = none;
  tool = tool_response 200 "ok" "h";
  now = 1;
}

abbrev empty_tables : Tables
empty_tables = record { db = record { approvals = []; decisions = [] }; counters = []; meters = [] }

allowed_call : (handle_tool_call outside (env_of "ALLOW") empty_tables).called ≡ true
unfolding handle_tool_call enforce_usage_quota to_upper enforce_rate_limit
    enforce_argument_constraints decide insert_adr
allowed_call = refl

handle_tool_call-called_example : Entered outside (env_of "ALLOW") empty_tables
handle_tool_call-called_example =
    handle_tool_call-called outside (env_of "ALLOW") empty_tables allowed_call

abbrev low : Classification.Result
low = record { action_type = "CRM.QUERY"; action_risk = "LOW"; action_summary = "GET /accounts" }

-- Without a policy that allows it the call is denied.
abbrev denied_reply : ToolCallResponse
denied_reply = record blank { request_id = "q1"; decision = "DENY" }

denied_call :
    (handle_fresh outside (env_of "DENY") "acme" "bot" listing empty_tables low).response
    ≡ reply 403 denied_reply
unfolding handle_fresh enforce_rate_limit enforce_argument_constraints decide insert_adr
denied_call = refl

no_decision : has_decision "acme" "ar_1" [] ≡ false
unfolding has_decision
no_decision = refl

handle_fresh-IsRecorded_example :
    IsRecorded "acme" "bot"
      (request_hash outside (env_of "DENY") "acme" "bot" listing)
      "DENY"
      []
      (handle_fresh outside
        (env_of "DENY")
        "acme"
        "bot"
        listing
        empty_tables
        low).tables.db.decisions
handle_fresh-IsRecorded_example =
    handle_fresh-IsRecorded outside (env_of "DENY") "acme" "bot" listing empty_tables low 403
      denied_reply no_decision denied_call

-- the first call, and the same with the headers of its approval
abbrev first_env : GateEnv
first_env = env_of "REQUIRE_APPROVAL"

abbrev second_env : GateEnv
second_env = record first_env { approval_id = "ar_1"; approval_token = "secret"; request_id = "q2" }

abbrev asked : Call
asked = record {
  tenant_id = "acme";
  agent_id = "bot";
  request_hash = request_hash outside first_env "acme" "bot" (normalized outside first_env listing);
  classified = low;
  mode = "enforce";
}

abbrev asked_reply : ToolCallResponse
asked_reply = record blank {
  error = "approval_required";
  request_id = "q1";
  decision = "REQUIRE_APPROVAL";
  approval_request_id = "ar_1";
  approval_token = "secret";
  expires_at = 1 + 900 * 10 ^ 9;
  action_type = "CRM.QUERY";
  risk = "LOW";
}

asked_call :
    (require_approval outside.sha256
      (env_of "REQUIRE_APPROVAL")
      asked
      empty_tables
      (result_of "REQUIRE_APPROVAL")).response
    ≡ reply 409 asked_reply
unfolding require_approval check_feature_access insert_approval_request insert_adr get
asked_call = refl

abbrev asked_tables : Tables
asked_tables =
    (require_approval outside.sha256 first_env asked empty_tables
      (result_of "REQUIRE_APPROVAL")).tables

abbrev approved_tables : Tables
approved_tables = record asked_tables {
  db = (approve_approval_request true "acme" "ar_1" "ann" "" 4 asked_tables.db).1;
}

nonempty : (s : String) → (s == "") ≡ false → s ≢ ""
nonempty s full empty = let bad : true ≡ false = rw empty at full in absurd (cc bad)

abbrev again : Params
again = record {
  tenant_id = "acme";
  agent_id = "bot";
  tool_id = "crm";
  request_id = "q2";
  request_hash = asked.request_hash;
  classification_risk = "LOW";
  classification_type = "CRM.QUERY";
  classification_summary = "GET /accounts";
  approval_id = "ar_1";
  approval_token = "secret";
}

abbrev executed_reply : ToolCallResponse
executed_reply = record blank {
  request_id = "q2";
  decision = "ALLOW";
  reason = "Approved execution";
  tool_status = 200;
  tool_body = "ok";
}

executed_call :
    (handle_approved_tool_call outside.sha256 replay_env again approved_tables.db).response
    ≡ reply 200 executed_reply
unfolding replay_code approve_approval_request require_approval check_feature_access
    insert_approval_request set_row request_hash hash_canonical trim_space hash_body filter_headers
    get
executed_call = refl

require_approval-unrecorded_example :
    (handle_approved_tool_call outside.sha256 replay_env again approved_tables.db).db.decisions
    ≡ asked_tables.db.decisions
require_approval-unrecorded_example =
    require_approval-unrecorded outside.sha256 first_env asked empty_tables
      (result_of "REQUIRE_APPROVAL") 409 asked_reply true "ann" "" 4 replay_env again executed_reply
      asked_call refl refl (nonempty "ar_1" refl) refl (λ x. refl) (λ x. refl) (λ x. refl)
      executed_call

abbrev canonical : CanonicalRequest
canonical = record {
  tenant_id = "acme";
  agent_id = "bot";
  tool_id = "crm";
  method = "get";
  path = "/accounts";
  query = "";
  headers = ("accept", "text/html") ∷ [];
  body_hash = "sha256:";
  idempotency_key = "";
}

canonical-Plain : Plain canonical
unfolding to_upper contains_char
canonical-Plain = record {
  tenant_id = refl;
  agent_id = refl;
  tool_id = refl;
  method = refl;
  path = refl;
  query = refl;
  idempotency_key = refl;
  body_hash = refl;
  headers = ((refl, refl, refl), tt);
}

upper-Plain : Plain (record canonical { method = "GET" })
unfolding to_upper contains_char
upper-Plain = record {
  tenant_id = refl;
  agent_id = refl;
  tool_id = refl;
  method = refl;
  path = refl;
  query = refl;
  idempotency_key = refl;
  body_hash = refl;
  headers = ((refl, refl, refl), tt);
}

same_text : canonical_text canonical ≡ canonical_text (record canonical { method = "GET" })
unfolding canonical_text
same_text = refl

canonical_text_inj_example : SameCall canonical (record canonical { method = "GET" })
canonical_text_inj_example =
    canonical_text_inj canonical (record canonical { method = "GET" }) canonical-Plain upper-Plain
      same_text

-- A free license whose claims name the integrations has them.
has_feature-merge_over_defaults_example :
    has_feature
      (merge_over_defaults "free" (some (record free_tier_defaults { integrations = true })))
      "integrations"
    ≡ (has_feature (defaults_for_tier "free") "integrations"
        || has_feature (record free_tier_defaults { integrations = true }) "integrations")
has_feature-merge_over_defaults_example =
    has_feature-merge_over_defaults "free" "integrations"
      (record free_tier_defaults { integrations = true })

no_meter : get_usage_meter (record { tenant_id = "acme"; period = "2026-01" }) [] ≡ 0
unfolding get_usage_meter
no_meter = refl

enforce_usage_quota_iff_example :
    let k : MeterKey = record { tenant_id = "acme"; period = "2026-01" } in
    ((enforce_usage_quota
        (some free_tier_defaults)
        true
        true
        k
        (after_calls free_tier_defaults k 3 [])).0
      ≡ within_quota)
    ↔ (3 < 10000)
enforce_usage_quota_iff_example =
    enforce_usage_quota_iff free_tier_defaults (record { tenant_id = "acme"; period = "2026-01" })
      10000 refl 3 [] no_meter
