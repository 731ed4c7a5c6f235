-- ===== src/Gateway/Deletions.antt =====
-- A deletion on its way from the classifier to the policies.
use rbitr.Prelude.{
  ℕ, String, ◌≡◌, ◌≢◌, inl, inr, ◌⊎◌, refl, arith, true, Option, none, some, Map, Unicode, to_lower,
  to_upper, trim_space,
}
use rbitr.Json.{Value, Members, get}
use rbitr.Classification.{Url}
use rbitr.Classification
use rbitr.Classification.Classify.{classify}
use rbitr.Classification.Risk.{classify-delete}
use rbitr.Policy
use rbitr.Policy.Base.{base_require_approval}
use rbitr.Policy.Evaluate.{TenantPolicy, CachedPrepared, evaluated, evaluate}
use rbitr.Policy.Enforced.{demands_approval, evaluate-demanded}
use rbitr.Gateway.{policy_input, with_risk_override}

deletion-demanded :
    (action risk : String)
    → (action ≡ "CRM.DELETE") ⊎ (action ≡ "DATA.DELETE")
    → (risk ≡ "HIGH") ⊎ (risk ≡ "CRITICAL")
    → base_require_approval action risk ≡ true
deletion-demanded action risk (inl a) (inl k) = rw (a, k) refl
deletion-demanded action risk (inl a) (inr k) = rw (a, k) refl
deletion-demanded action risk (inr a) (inl k) = rw (a, k) refl
deletion-demanded action risk (inr a) (inr k) = rw (a, k) refl

-- No override, or one that leaves the risk high.
abbrev pub IsHigh : Option String → Type 0
IsHigh o = (o ≡ none) ⊎ (o ≡ some "HIGH") ⊎ (o ≡ some "CRITICAL")

policy_input-demanded :
    (tenant agent tool method path : String) (o : Option String) (r : Classification.Result)
    → (r.action_type ≡ "CRM.DELETE") ⊎ (r.action_type ≡ "DATA.DELETE")
    → r.action_risk ≡ "CRITICAL"
    → IsHigh o
    → demands_approval (policy_input tenant agent tool method path (with_risk_override o r)) ≡ true
unfolding policy_input with_risk_override get
policy_input-demanded tenant agent tool method path none r t k h =
    deletion-demanded r.action_type r.action_risk t (inr k)
policy_input-demanded tenant agent tool method path (some risk) r t k h =
    deletion-demanded r.action_type risk t (ground arith)

module _ ⦃u : Unicode⦄ ⦃l : Url⦄ {P : Type 0} (prepare : String → Option P)
    (eval : P → Members → Option (Option Value)) (get_policy : String → Option TenantPolicy) where
  -- A call with the method DELETE of any tool but Jira, whatever its path and query, is never allowed
  -- outright by the policies, whatever the tenant's policy is and whatever the cache of policies
  -- holds, if the evaluation of the base policy answers and the tenant has no risk override for the
  -- action, or one to HIGH or CRITICAL.
  pub evaluate-delete :
      (tenant agent tool method path query : String) (o : Option String) (now : ℕ)
      (cache : Map (CachedPrepared P)) (result : Policy.Result)
      → to_upper (trim_space method) ≡ "DELETE"
      → to_lower (trim_space tool) ≢ "jira"
      → IsHigh o
      → let input =
          policy_input tenant agent tool method path
            (with_risk_override o (classify tool method path query)) in
        (evaluate prepare eval get_policy true now tenant input cache).0 ≡ evaluated result
        → result.decision ≢ "ALLOW"
  evaluate-delete tenant agent tool method path query o now cache result d other h e =
      let (t, k) = classify-delete tool method path query d other in
      let r = classify tool method path query in
      evaluate-demanded prepare eval get_policy now tenant
        (policy_input tenant agent tool method path (with_risk_override o r)) cache result
        (policy_input-demanded tenant agent tool method path o r t k h) e
