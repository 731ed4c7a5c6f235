-- ===== src/Http.antt =====
-- What a request of the REST gateway gets back: `c.JSON` in internal/api/public/handlers.go, with
-- ToolCallResponse, and the answer of an upstream tool.
use rbitr.Prelude.{ℕ, String, Bool, false}
use rbitr.Json.{Members, end}

pub record ToolCallResponse : Type 0 where
  pub error : String
  pub request_id : String
  pub decision : String
  pub reason : String
  pub approval_request_id : String
  pub approval_token : String
  pub expires_at : ℕ
  pub action_type : String
  pub risk : String
  pub tool_status : ℕ
  pub tool_body : String
  pub shadow_denied : Bool
  pub rbitr_shadow : Members

-- The zero value, of which a handler sets some fields.
abbrev pub blank : ToolCallResponse
blank = record {
  error = "";
  request_id = "";
  decision = "";
  reason = "";
  approval_request_id = "";
  approval_token = "";
  expires_at = 0;
  action_type = "";
  risk = "";
  tool_status = 0;
  tool_body = "";
  shadow_denied = false;
  rbitr_shadow = end;
}

-- `c.JSON(status, map[string]string{"error": …})`, a ToolCallResponse, and any other object.
pub data Response : Type 0 where
  failure : ℕ → String → Response
  reply : ℕ → ToolCallResponse → Response
  payload : ℕ → Members → Response

-- What `executeToolCall` returns: the connector's response, or an error, by the tests that callers
-- make of it.
pub data ToolResult : Type 0 where
  tool_response : ℕ → String → String → ToolResult
  tool_not_found connector_missing upstream_timeout upstream_error : ToolResult
