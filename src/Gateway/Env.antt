-- ===== src/Gateway/Env.antt =====
-- What a fresh call of a tool meets: the request, and the answers of what handleToolCall in
-- internal/api/public/handlers.go calls and this library leaves open (the authentication, the
-- database, the clock, the random numbers, the upstream tool). The policy evaluator is an interface
-- of the code, and here a function.
use rbitr.Prelude.{ℕ, String, Bool, Option, Map}
use rbitr.Json.{ℤ, Value, Members}
use rbitr.Http.{Response, ToolResult}
use rbitr.Approval.{Db}
use rbitr.Approval.Store.{AdrAnswers}
use rbitr.Approval.Execute.{Env}
use rbitr.Policy.Evaluate.{EvalOutcome}
use rbitr.License.{Entitlements}
use rbitr.License.Quota.{Meters}
use rbitr.Limits.{Counters}
use rbitr.Limits.Config.{ConfigRow}

pub record ToolCallRequest : Type 0 where
  pub http_method : String
  pub path : String
  pub query : String
  pub headers : Map String
  pub body : String

-- What `authenticateTenantRequest` returns, by the tests of `authError`.
pub data Authentication : Type 0 where
  as_tenant : String → String → Authentication
  unauthorized invalid_agent_id forbidden auth_failed : Authentication

-- What `getRiskOverrideCached` returns.
pub data RiskOverride : Type 0 where
  overridden : String → RiskOverride
  not_overridden lookup_failed : RiskOverride

-- What `GetTenantConfig` returns of the enforcement mode.
pub data TenantMode : Type 0 where
  mode_text : String → TenantMode
  no_tenant_config mode_failed : TenantMode

pub record ProvenanceContext : Type 0 where
  pub source_tenant_id : String
  pub source_decision_id : String
  pub chain_depth : ℕ

pub record GateEnv : Type 0 where
  pub authenticated : Authentication
  pub license : Option Entitlements
  pub meter_answers : Bool
  pub period : String
  pub tool_id : String
  pub request_id : String
  pub idempotency_key : String
  pub decoded : Option ToolCallRequest
  pub body_limit : ℕ
  pub approval_id : String
  pub approval_token : String
  pub replay : Env
  pub risk_override : RiskOverride
  pub policy : Option (Members → EvalOutcome)
  pub file_governance : Bool
  pub cross_tenant_chain : Bool
  pub provenance : ProvenanceContext
  pub shadow_feature : Bool
  pub tenant_mode : TenantMode
  pub rate_limits : Bool
  pub rate_config_answers : Bool
  pub rate_config : Option ConfigRow
  pub counter_answers : Bool
  pub arg_flag : Option Bool
  pub arg_fallback : Bool
  pub adr_answers : AdrAnswers
  pub approval_answers : Bool
  pub new_decision_id : String
  pub new_approval_id : String
  pub new_token : Option String
  pub default_ttl : Option ℤ
  pub tool : ToolResult
  pub now : ℕ

-- The functions that are not the repository's.
pub record Outside : Type 0 where
  pub sha256 : String → String
  pub compile : String → Option (String → Bool)
  pub parse_json : String → Option Value
  pub parse_int : String → Option ℤ

-- The tables that a call reads and writes.
pub record Tables : Type 0 where
  pub db : Db
  pub counters : Counters
  pub meters : Meters

-- The tables and the response at the end, and whether the tool was called.
pub record Answer : Type 0 where
  pub tables : Tables
  pub response : Response
  pub called : Bool
