-- ===== src/Policy/Evaluate.antt =====
-- The evaluator: internal/policy/evaluator.go. The package rego is a parameter: `prepare` prepares the
-- text of a policy and `eval` evaluates what was prepared, each with `none` for an error. `get_policy`
-- is the store's query. A call is one step on the cache of prepared policies.
use rbitr.Prelude.{
  ℕ, ◌+◌, ◌*◌, ◌^◌, String, Bool, ◌&&◌, ◌==◌, if◌then◌else◌, ltb, Option, none, some, [], ◌∷◌, Map,
  lookup, insert,
}
use Prim.Native.String
use rbitr.Json.{pos, Value, text, Members, end, get, set_member}
use rbitr.Policy.{Decision, Result}
use rbitr.Policy.Base.{BasePolicyResult, evaluate_base_policy, merge_base_policy_decision}
use rbitr.Policy.Opa.{Parsed, bad, parsed, parse_result}

pub record TenantPolicy : Type 0 where
  pub policy_version : String
  pub rego_module : String

pub data EvalOutcome : Type 0 where
  evaluated : Result → EvalOutcome
  invalid_output : String → String → EvalOutcome
  eval_failed : EvalOutcome

pub record CachedPrepared (P : Type 0) : Type 0 where
  pub prepared : P
  pub module_text : String
  pub expires_at : ℕ

-- `defaultCacheTTL`, five minutes in nanoseconds
abbrev pub ttl : ℕ
ttl = 300 * 10 ^ 9

abbrev input_risk : Members → String
input_risk input = elim (get "action_risk" input) [ text s ↦ s | _ ↦ "MEDIUM" ]

-- The fields that the evaluator copies, and the version of the tenant's policy.
abbrev pub with_policy_version : String → Decision → Result
with_policy_version version d = record {
  version = d.version;
  decision = d.decision;
  risk = d.risk;
  rule = d.rule;
  reasons = d.reasons;
  constraints = d.constraints;
  tags = d.tags;
  matched_rules = d.matched_rules;
  policy_version = version;
}

abbrev pub wrap_policy_output_error : String → Parsed → EvalOutcome
wrap_policy_output_error version (bad reason) = invalid_output reason version
wrap_policy_output_error version (parsed d) = evaluated (with_policy_version version d)

abbrev pub cache_key : String → TenantPolicy → String
cache_key tenant_id policy = String.◌++◌ tenant_id (String.◌++◌ ":" policy.policy_version)

abbrev pub base_deny : BasePolicyResult → Members → Result
base_deny base input = record {
  version = "base";
  decision = "DENY";
  risk = input_risk input;
  rule = record { id = base.rule_id; priority = pos 1000 };
  reasons = record { code = "BASE_POLICY_DENY"; message = base.reason } ∷ [];
  constraints = end;
  tags = "base_policy:DENY" ∷ [];
  matched_rules = [];
  policy_version = "";
}

abbrev pub base_error : BasePolicyResult
base_error = record { effect = "ALLOW"; rule_id = "base_error"; reason = "base policy eval error" }

abbrev pub base_or_error : Option BasePolicyResult → BasePolicyResult
base_or_error none = base_error
base_or_error (some r) = r

abbrev pub merge_outcome : BasePolicyResult → EvalOutcome → EvalOutcome
merge_outcome base (evaluated r) = evaluated (merge_base_policy_decision base r)
merge_outcome base (invalid_output reason version) = invalid_output reason version
merge_outcome base eval_failed = eval_failed

module _ {P : Type 0} (prepare : String → Option P) (eval : P → Members → Option (Option Value))
    (get_policy : String → Option TenantPolicy) where
  unfoldable pub evaluate_prepared : P → Members → TenantPolicy → EvalOutcome
  evaluate_prepared prepared input policy =
      elim (eval prepared (set_member "policy_version" (text policy.policy_version) input)) [
        | none ↦ eval_failed
        | some result_set ↦ wrap_policy_output_error policy.policy_version (parse_result result_set)
      ]

  -- a cached query that serves the policy now
  unfoldable pub fresh_entry : Option (CachedPrepared P) → TenantPolicy → ℕ → Option P
  fresh_entry none policy now = none
  fresh_entry (some c) policy now =
      if c.module_text == policy.rego_module && ltb now c.expires_at then some c.prepared else none

  unfoldable pub prepare_and_evaluate :
      ℕ
      → String
      → Members
      → TenantPolicy
      → Map (CachedPrepared P)
      → EvalOutcome × Map (CachedPrepared P)
  prepare_and_evaluate now tenant_id input policy cache = elim (prepare policy.rego_module) [
    | none ↦ (eval_failed, cache)
    | some q ↦
        (let entry : CachedPrepared P = record {
          prepared = q;
          module_text = policy.rego_module;
          expires_at = now + ttl;
        } in
          (evaluate_prepared q input policy, insert (cache_key tenant_id policy) entry cache))
  ]

  unfoldable pub evaluate_tenant_policy :
      ℕ → String → Members → Map (CachedPrepared P) → EvalOutcome × Map (CachedPrepared P)
  evaluate_tenant_policy now tenant_id input cache = elim (get_policy tenant_id) [
    | none ↦ (eval_failed, cache)
    | some policy ↦ elim (fresh_entry (lookup (cache_key tenant_id policy) cache) policy now) [
      | some q ↦ (evaluate_prepared q input policy, cache)
      | none ↦ prepare_and_evaluate now tenant_id input policy cache
    ]
  ]

  unfoldable pub evaluate :
      Bool → ℕ → String → Members → Map (CachedPrepared P) → EvalOutcome × Map (CachedPrepared P)
  evaluate base_answers now tenant_id input cache =
      let base = base_or_error (evaluate_base_policy base_answers input) in
      let (tenant, cache') = evaluate_tenant_policy now tenant_id input cache in
      if base.effect == "DENY"
      then (evaluated (base_deny base input), cache)
      else (merge_outcome base tenant, cache')
