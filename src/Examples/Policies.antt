-- ===== src/Examples/Policies.antt =====
-- Policies that allow too much, and how they are evaluated.
use rbitr.Prelude.{String, ◌≡◌, ◌≢◌, refl, inl, inr, Option, some, [], ◌∷◌, All, Map, lookup, In}
use rbitr.Json.{
  pos, Value, text, number, array, object, nil, cons, Members, end, member, get, set_member,
}
use rbitr.Policy.{MatchedRule, Decision, Result}
use rbitr.Policy.Base.{BasePolicyResult, evaluate_base_policy, merge_base_policy_decision}
use rbitr.Policy.Opa.{
  parse_result, sort_rules, resolve_decision, place_rule, matched_rule_less, parse_object,
  parse_rule, parse_priority, parse_rest, parse_reasons, parse_matched_rules, parse_tags,
}
use rbitr.Policy.Evaluate.{
  TenantPolicy, CachedPrepared, with_policy_version, fresh_entry, evaluate_prepared,
  evaluate_tenant_policy, evaluate,
}
use rbitr.Policy.Enforced.{merge_base_policy_decision-stricter, evaluate-demanded}
use rbitr.Policy.Winner.{Unbeaten, resolve_decision-Unbeaten}
use rbitr.Policy.Cached.{IsCache, uncached, evaluate_tenant_policy-uncached}

abbrev pub allows : Decision
allows = record {
  version = "1";
  decision = "ALLOW";
  risk = "LOW";
  rule = record { id = "all"; priority = pos 1 };
  reasons = record { code = "OK"; message = "fine" } ∷ [];
  constraints = end;
  tags = [];
  matched_rules = [];
}

abbrev demands : BasePolicyResult
demands = record {
  effect = "REQUIRE_APPROVAL";
  rule_id = "base_require_approval";
  reason = "Base policy: action requires approval";
}

merge_base_policy_decision-stricter_example :
    (merge_base_policy_decision demands (with_policy_version "v1" allows)).decision
    ≡ "REQUIRE_APPROVAL"
merge_base_policy_decision-stricter_example =
    merge_base_policy_decision-stricter demands (with_policy_version "v1" allows) (inr (inl refl))
      (inr (inr refl))

-- A policy's text prepares to itself, and evaluates to an object that allows.
abbrev pub prepare : String → Option String
prepare t = some t

abbrev pub answer : Value
answer = object (
    member "version" (text "1") (
      member "decision" (text "ALLOW") (
        member "risk" (text "LOW") (
          member "rule" (object (member "id" (text "all") (member "priority" (number (pos 1)) end)))
            (member "reasons"
              (array (
                cons (object (member "code" (text "OK") (member "message" (text "fine") end))) nil))
              (member "constraints" (object end) end))))))

abbrev pub eval : String → Members → Option (Option Value)
eval t input = some (some answer)

abbrev pub get_policy : String → Option TenantPolicy
get_policy tenant = some (record { policy_version = "v1"; rego_module = "package rbitr.policy" })

abbrev deletion : Members
deletion = member "action_type" (text "CRM.DELETE") (member "action_risk" (text "CRITICAL") end)

abbrev pub cached : Map (CachedPrepared String)
cached =
    (
      "acme:v1",
      record {
        prepared = "package rbitr.policy";
        module_text = "package rbitr.policy";
        expires_at = 100;
      },
    )
    ∷ []

abbrev pub approval_needed : Result
approval_needed = record (with_policy_version "v1" allows) {
  decision = "REQUIRE_APPROVAL";
  tags = "base_policy:REQUIRE_APPROVAL" ∷ [];
}

evaluate-demanded_example : approval_needed.decision ≢ "ALLOW"
unfolding get evaluate evaluate_base_policy evaluate_tenant_policy fresh_entry lookup
    evaluate_prepared parse_result parse_object parse_rule parse_priority parse_rest parse_reasons
    parse_matched_rules merge_base_policy_decision resolve_decision parse_tags set_member
evaluate-demanded_example =
    evaluate-demanded prepare eval get_policy 50 "acme" deletion cached approval_needed refl refl

evaluate_tenant_policy-uncached_example :
    let (out, cache') = evaluate_tenant_policy prepare eval get_policy 50 "acme" deletion cached in
    (out ≡ uncached prepare eval get_policy "acme" deletion)
    × IsCache prepare eval get_policy cache'
evaluate_tenant_policy-uncached_example =
    evaluate_tenant_policy-uncached prepare eval get_policy 50 "acme" deletion cached (refl, tt)

abbrev low_deny : MatchedRule
low_deny = record {
  rule_id = "deny";
  priority = pos 5;
  effect = "DENY";
  reasons = [];
  constraints_summary = end;
}

abbrev low_allow : MatchedRule
low_allow = record low_deny { rule_id = "allow"; effect = "ALLOW" }

abbrev tied : Decision
tied = record allows { matched_rules = sort_rules (low_allow ∷ low_deny ∷ []) }

-- at the same priority the refusal decides
tie_denies : (resolve_decision tied).decision ≡ "DENY"
unfolding resolve_decision sort_rules place_rule matched_rule_less
tie_denies = refl

resolve_decision-Unbeaten_example :
    (w : MatchedRule) × In w (low_allow ∷ low_deny ∷ [])
    × ((resolve_decision tied).decision ≡ w.effect)
    × ((resolve_decision tied).rule.id ≡ w.rule_id)
    × All (Unbeaten w) (low_allow ∷ low_deny ∷ [])
resolve_decision-Unbeaten_example = resolve_decision-Unbeaten tied low_allow (low_deny ∷ []) refl
