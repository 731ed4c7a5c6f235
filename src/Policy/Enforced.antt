-- ===== src/Policy/Enforced.antt =====
-- What a tenant's policy can do against the base policy, and what it decides where that is silent.
use rbitr.Prelude.{
  ℕ, String, ◌≡◌, ◌≢◌, ◌⊎◌, inl, inr, refl, Bool, true, ◌==◌, ltb, if◌then◌else◌, Option, arith,
  eq_iff, Bool-cases, Map,
}
use rbitr.Json.{Value, Members, get, text_of}
use rbitr.Policy.{Result}
use rbitr.Policy.Base.{
  BasePolicyResult, base_require_approval, evaluate_base_policy, merge_base_policy_decision,
}
use rbitr.Policy.Opa.{decision_rank}
use rbitr.Policy.Evaluate.{
  TenantPolicy, CachedPrepared, EvalOutcome, evaluated, invalid_output, eval_failed, base_or_error,
  merge_outcome, evaluate_tenant_policy, evaluate,
}

abbrev pub IsDecision : String → Type 0
IsDecision d = (d ≡ "DENY") ⊎ (d ≡ "REQUIRE_APPROVAL") ⊎ (d ≡ "ALLOW")

-- the stricter of two decisions
abbrev pub stricter : String → String → String
stricter a b = if ltb (decision_rank a) (decision_rank b) then b else a

-- Merging takes the stricter of the base policy's and the tenant's decisions, DENY over
-- REQUIRE_APPROVAL over ALLOW, whichever two decisions they are.
pub merge_base_policy_decision-stricter :
    (base : BasePolicyResult) (tenant : Result)
    → IsDecision base.effect
    → IsDecision tenant.decision
    → (merge_base_policy_decision base tenant).decision ≡ stricter base.effect tenant.decision
unfolding merge_base_policy_decision
merge_base_policy_decision-stricter base tenant (inl b) (inl t) = rw (b, t) refl
merge_base_policy_decision-stricter base tenant (inl b) (inr (inl t)) = rw (b, t) refl
merge_base_policy_decision-stricter base tenant (inl b) (inr (inr t)) = rw (b, t) refl
merge_base_policy_decision-stricter base tenant (inr (inl b)) (inl t) = rw (b, t) refl
merge_base_policy_decision-stricter base tenant (inr (inl b)) (inr (inl t)) = rw (b, t) refl
merge_base_policy_decision-stricter base tenant (inr (inl b)) (inr (inr t)) = rw (b, t) refl
merge_base_policy_decision-stricter base tenant (inr (inr b)) (inl t) = rw (b, t) refl
merge_base_policy_decision-stricter base tenant (inr (inr b)) (inr (inl t)) = rw (b, t) refl
merge_base_policy_decision-stricter base tenant (inr (inr b)) (inr (inr t)) = rw (b, t) refl

-- what the base policy demands of an input
abbrev pub demands_approval : Members → Bool
demands_approval input =
    base_require_approval (text_of (get "action_type" input)) (text_of (get "action_risk" input))

base-demanded :
    (input : Members)
    → demands_approval input ≡ true
    → (base_or_error (evaluate_base_policy true input)).effect ≡ "REQUIRE_APPROVAL"
unfolding evaluate_base_policy
base-demanded input h = rw (h, evaluate_base_policy) refl

merge-demanded :
    (base : BasePolicyResult) (tenant : Result)
    → base.effect ≡ "REQUIRE_APPROVAL"
    → (merge_base_policy_decision base tenant).decision ≢ "ALLOW"
unfolding merge_base_policy_decision
merge-demanded base tenant h = elim (Bool-cases (tenant.decision == "ALLOW")) [
  | inl allows ↦
      rw (h, merge_base_policy_decision)
        (rw (allows, merge_base_policy_decision)
          (λ e. ground (arith, eq_iff "REQUIRE_APPROVAL" "ALLOW")))
  | inr other ↦
      rw (h, merge_base_policy_decision)
        (rw (other, merge_base_policy_decision)
          (λ e. ground (arith, eq_iff tenant.decision "ALLOW")))
]

module _ {P : Type 0} (prepare : String → Option P) (eval : P → Members → Option (Option Value))
    (get_policy : String → Option TenantPolicy) (now : ℕ) (tenant_id : String) (input : Members)
    (cache : Map (CachedPrepared P)) where
  merge_outcome-demanded :
      (base : BasePolicyResult) (out : EvalOutcome) (r : Result)
      → base.effect ≡ "REQUIRE_APPROVAL"
      → merge_outcome base out ≡ evaluated r
      → r.decision ≢ "ALLOW"
  merge_outcome-demanded base (evaluated t) r h e =
      let same : merge_base_policy_decision base t ≡ r = cc in rw same at (merge-demanded base t h)
  merge_outcome-demanded base (invalid_output reason version) r h e = cc
  merge_outcome-demanded base eval_failed r h e = cc

  -- A call whose risk is CRITICAL, which grants access or changes a role, or which deletes or exports
  -- at HIGH risk is never allowed outright, whatever the tenant's policy is and returns and whatever
  -- the cache holds, provided that the evaluation of the base policy answers.
  pub evaluate-demanded :
      (r : Result)
      → demands_approval input ≡ true
      → (evaluate prepare eval get_policy true now tenant_id input cache).0 ≡ evaluated r
      → r.decision ≢ "ALLOW"
  unfolding evaluate
  evaluate-demanded r h e =
      let base = base-demanded input h in
      merge_outcome-demanded (base_or_error (evaluate_base_policy true input))
        (evaluate_tenant_policy prepare eval get_policy now tenant_id input cache).0 r base
        (rw (base, evaluate) at e)
