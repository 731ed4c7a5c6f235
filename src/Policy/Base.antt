-- ===== src/Policy/Base.antt =====
-- The base policy: internal/policy/base_policy.go. Its Rego text is read as the Boolean functions
-- below; a Rego condition on a field that is missing does not hold. `answers` is false where the
-- evaluation of the text returns an error.
use rbitr.Prelude.{
  String, Bool, true, false, ◌||◌, ◌&&◌, ◌==◌, if◌then◌else◌, List, [], ◌∷◌, ◌++◌, Option, none,
  some,
}
use rbitr.Json.{Members, get, text_of}
use rbitr.Policy.{Result, is_decision_allowed}

pub record BasePolicyResult : Type 0 where
  pub effect : String
  pub rule_id : String
  pub reason : String

abbrev pub is_critical_risk_action : String → Bool
is_critical_risk_action t =
    t == "DATA.DELETE"
    || t == "CRM.DELETE"
    || t == "DATA.BULK_EXPORT"
    || t == "DATA.EXPORT"
    || t == "ACCESS.GRANT"
    || t == "ACCESS.ROLE_CHANGE"

-- the three rules `base_require_approval`
abbrev pub base_require_approval : String → String → Bool
base_require_approval action_type action_risk =
    action_risk == "CRITICAL"
    || (is_critical_risk_action action_type && (action_risk == "HIGH" || action_risk == "CRITICAL"))
    || (action_type == "ACCESS.GRANT" || action_type == "ACCESS.ROLE_CHANGE")

-- the rule `decision`
abbrev pub base_decision : Members → BasePolicyResult
base_decision input =
    if base_require_approval (text_of (get "action_type" input)) (text_of (get "action_risk" input))
    then record {
      effect = "REQUIRE_APPROVAL";
      rule_id = "base_require_approval";
      reason = "Base policy: action requires approval";
    }
    else record { effect = "ALLOW"; rule_id = "base_allow"; reason = "Base policy: no restriction" }

-- `parseBasePolicyResult` on the object that the text yields
abbrev pub parse_base_policy_result : BasePolicyResult → BasePolicyResult
parse_base_policy_result r = record r {
  effect =
      if r.effect == ""
      then "ALLOW"
      else if is_decision_allowed r.effect
      then r.effect
      else "ALLOW";
}

unfoldable pub evaluate_base_policy : Bool → Members → Option BasePolicyResult
evaluate_base_policy false input = none
evaluate_base_policy true input = some (parse_base_policy_result (base_decision input))

abbrev append_tag : List String → String → List String
append_tag tags tag = tags ++ tag ∷ []

unfoldable pub merge_base_policy_decision : BasePolicyResult → Result → Result
merge_base_policy_decision base tenant =
    if base.effect == "DENY"
    then record tenant { decision = "DENY"; tags = append_tag tenant.tags "base_policy:DENY" }
    else if base.effect == "REQUIRE_APPROVAL"
    then record tenant {
      decision = if tenant.decision == "ALLOW" then "REQUIRE_APPROVAL" else tenant.decision;
      tags = append_tag tenant.tags "base_policy:REQUIRE_APPROVAL";
    }
    else record tenant { tags = append_tag tenant.tags "base_policy:ALLOW" }
