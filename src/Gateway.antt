-- ===== src/Gateway.antt =====
-- What the gateway passes from the classifier to the policies: handleToolCall in
-- internal/api/public/handlers.go.
pub mod Deletions
pub mod Request
pub mod Env
pub mod Shadow
pub mod Expiry
pub mod Deny
pub mod Decide
pub mod Fresh
pub mod Handle
pub mod Safety
pub mod Entry
pub mod Recorded
pub mod Reported
pub mod Reports
pub mod Opened
pub mod Completion
pub mod Unrecorded
pub mod Injective
use rbitr.Prelude.{String, Option, none, some}
use rbitr.Json.{text, object, Members, end, member}
use rbitr.Classification.{Result}

-- `policyInput`, without the provenance of a call from another tenant
unfoldable pub policy_input : String → String → String → String → String → Result → Members
policy_input tenant_id agent_id tool_id method path r = member "tenant_id" (text tenant_id) (
    member "agent_id" (text agent_id) (
      member "tool_id" (text tool_id) (
        member "action_type" (text r.action_type) (
          member "action_risk" (text r.action_risk) (
            member "policy_version" (text "") (
              member "request"
                (object (member "method" (text method) (member "path" (text path) end))) end))))))

-- The tenant's own risk for the type of action, where it has one.
unfoldable pub with_risk_override : Option String → Result → Result
with_risk_override none r = r
with_risk_override (some risk) r = record r { action_risk = risk }
