-- ===== src/Gateway/Shadow.antt =====
-- The enforcement mode of a tenant: internal/api/public/shadow_mode.go, and how decisions are
-- explained: internal/api/public/decision_explain.go and withRateLimitConstraint of rate_limit.go.
use rbitr.Prelude.{
  String, Bool, false, not, ◌==◌, if◌then◌else◌, Option, none, some, List, [], ◌∷◌, Unicode,
  to_lower, trim_space,
}
use rbitr.Json.{
  pos, boolean, number, text, array, object, Values, nil, cons, Members, end, member, set_member,
}
use rbitr.Approval.{DecisionReason}
use rbitr.Policy.{MatchedRule}
use rbitr.Limits.Enforce.{RateLimitViolation}
use rbitr.Gateway.Env.{TenantMode, mode_text, no_tenant_config, mode_failed}

module _ ⦃u : Unicode⦄ where
  unfoldable pub normalize_enforcement_mode : String → String
  normalize_enforcement_mode value =
      if trim_space (to_lower value) == "shadow" then "shadow" else "enforce"

  unfoldable pub is_shadow_mode : String → Bool
  unfolding normalize_enforcement_mode
  is_shadow_mode mode = normalize_enforcement_mode mode == "shadow"

  abbrev mode_of : TenantMode → Option String
  mode_of (mode_text mode) = some (normalize_enforcement_mode mode)
  mode_of no_tenant_config = some "enforce"
  mode_of mode_failed = none

  -- `none` for an error
  unfoldable pub tenant_enforcement_mode : Bool → TenantMode → Option String
  unfolding normalize_enforcement_mode
  tenant_enforcement_mode feature config = if not feature then some "enforce" else mode_of config

unfoldable pub decision_reasons_as_maps : List DecisionReason → Values
decision_reasons_as_maps [] = nil
decision_reasons_as_maps (r ∷ rs) =
    cons (object (member "code" (text r.code) (member "message" (text r.message) end)))
      (decision_reasons_as_maps rs)

abbrev reasons_member : List DecisionReason → Members
reasons_member [] = end
reasons_member (r ∷ rs) = member "reasons" (array (decision_reasons_as_maps (r ∷ rs))) end

abbrev summary_member : Members → Members → Members
summary_member end rest = rest
summary_member (member k v ms) rest = member "constraints_summary" (object (member k v ms)) rest

unfoldable pub decision_matched_rules_as_maps : List MatchedRule → Values
unfolding decision_reasons_as_maps
decision_matched_rules_as_maps [] = nil
decision_matched_rules_as_maps (r ∷ rs) =
    cons
      (object (
        member "rule_id" (text r.rule_id) (
          member "priority" (number r.priority) (
            member "effect" (text r.effect)
              (summary_member r.constraints_summary (reasons_member r.reasons))))))
      (decision_matched_rules_as_maps rs)

unfoldable pub with_matched_rules_constraint : Members → List MatchedRule → Members
unfolding decision_matched_rules_as_maps
with_matched_rules_constraint constraints [] = constraints
with_matched_rules_constraint constraints (r ∷ rs) =
    set_member "matched_rules" (array (decision_matched_rules_as_maps (r ∷ rs))) constraints

unfoldable pub with_rate_limit_constraint : Members → RateLimitViolation → Members
with_rate_limit_constraint constraints v =
    set_member "rate_limit_enforced"
      (object (
        member "window" (text v.window) (
          member "limit" (number (pos v.limit)) (
            member "retry_after_seconds" (number (pos v.retry_after_seconds))
              (member "scope" (text v.scope) end)))))
      constraints

abbrev text_member : String → String → Members → Members
text_member key value rest = if value == "" then rest else member key (text value) rest

abbrev constraints_member : Members → Members
constraints_member end = end
constraints_member (member k v ms) = member "constraints" (object (member k v ms)) end

unfoldable pub build_shadow_decision_metadata :
    String → String → String → List DecisionReason → Members → Members
unfolding decision_reasons_as_maps
build_shadow_decision_metadata rule_id risk policy_version reasons constraints =
    member "mode" (text "shadow") (
      member "enforced" (boolean false) (
        member "original_decision" (text "DENY") (
          member "reasons" (array (decision_reasons_as_maps reasons)) (
            text_member "rule_id" rule_id (
              text_member "risk" risk
                (text_member "policy_version" policy_version (constraints_member constraints)))))))
