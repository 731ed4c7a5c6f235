-- ===== src/Examples/Deletions.antt =====
-- The deletion of an account under a policy that allows everything.
use rbitr.Prelude.{
  ◌≢◌, inl, refl, none, some, arith, eq_iff, lookup, Unicode, ascii, to_lower, to_upper, trim_space,
}
use rbitr.Json.{get, set_member}
use rbitr.Classification.{Url}
use rbitr.Classification.Input.{new_classify_input}
use rbitr.Classification.Intents.{
  has_any, is_delete_intent, is_crm_entity, classify_generic, classify_generic_action_type,
}
use rbitr.Classification.Classify.{classify}
use rbitr.Policy.Base.{evaluate_base_policy, merge_base_policy_decision}
use rbitr.Policy.Opa.{
  parse_result, resolve_decision, parse_object, parse_rule, parse_priority, parse_rest,
  parse_reasons, parse_matched_rules, parse_tags,
}
use rbitr.Policy.Evaluate.{evaluate, evaluate_tenant_policy, evaluate_prepared, fresh_entry}
use rbitr.Gateway.{policy_input, with_risk_override}
use rbitr.Gateway.Deletions.{evaluate-delete}
use rbitr.Examples.Policies.{prepare, eval, get_policy, cached, approval_needed}

instance plain_paths : Url
plain_paths = record { parsed_path = λ p. some p; parsed_query = λ q. none }

instance plain_letters : Unicode
plain_letters = ascii

evaluate-delete_example : approval_needed.decision ≢ "ALLOW"
unfolding to_upper to_lower trim_space get set_member lookup new_classify_input has_any
    is_delete_intent is_crm_entity classify_generic classify_generic_action_type classify
    evaluate_base_policy merge_base_policy_decision parse_result resolve_decision parse_object
    parse_rule parse_priority parse_rest parse_reasons parse_matched_rules parse_tags evaluate
    evaluate_tenant_policy evaluate_prepared fresh_entry policy_input with_risk_override plain_paths
    plain_letters
evaluate-delete_example =
    evaluate-delete prepare eval get_policy "acme" "agent" "crm" "DELETE" "/accounts/7" "" none 50
      cached approval_needed refl (λ e. ground (arith, eq_iff "crm" "jira")) (inl refl) refl
