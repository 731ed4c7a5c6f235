-- ===== src/Gateway/Safety.antt =====
-- When a fresh call reaches the tool.
use rbitr.Prelude.{
  String, true, false, ◌≡◌, ◌⊎◌, inl, inr, refl, ◌==◌, eq_iff, Option, none, some, arith,
  Bool-cases, Unicode,
}
use rbitr.Json.{Members}
use rbitr.Http.{Response}
use rbitr.Approval.{Db, StoreError}
use rbitr.Classification as Classification
use rbitr.Classification.{Url}
use rbitr.Policy as Policy
use rbitr.Policy.Evaluate.{EvalOutcome, evaluated, invalid_output, eval_failed}
use rbitr.License.{check_feature_access}
use rbitr.Limits.{Counters}
use rbitr.Limits.Enforce.{
  Verdict, within, violates, check_failed, RateLimitViolation, enforce_rate_limit,
}
use rbitr.Arguments.{ArgConstraintViolation}
use rbitr.Arguments.Enforce.{enforce_argument_constraints}
use rbitr.Gateway.{with_risk_override}
use rbitr.Gateway.Env.{
  ToolCallRequest, RiskOverride, overridden, not_overridden, lookup_failed, GateEnv, Outside,
  Tables,
}
use rbitr.Gateway.Shadow.{is_shadow_mode, tenant_enforcement_mode}
use rbitr.Gateway.Deny.{Call, after_denial, deny, deny_rate_limit, deny_arguments, deny_policy}
use rbitr.Gateway.Decide.{
  after_record, approval_reply, after_approval, with_token, require_approval, decide,
}
use rbitr.Gateway.Fresh.{
  settled, invalid_result, arguments_of, call_of, after_arguments, check_arguments, after_limits,
  limit_key, check_limits, with_mode, after_evaluation, input_of, file_refusal, with_policy,
  with_risk, handle_fresh,
}

module _ ⦃u : Unicode⦄ (sha256 : String → String) (e : GateEnv) (c : Call) where
  after_denial-called :
      (t : Tables) (reasons : _) (meta : Members) (response : Response)
      (inserted : Option StoreError × Db)
      → (after_denial e c t reasons meta response inserted).called ≡ true
      → is_shadow_mode c.mode ≡ true
  after_denial-called t reasons meta response (some error, db) called = absurd (cc called)
  after_denial-called t reasons meta response (none, db) called =
      elim (Bool-cases (is_shadow_mode c.mode)) [
        | inl shadow ↦ shadow
        | inr enforced ↦ absurd (let no_call : false ≡ true = rw enforced at called in cc)
      ]

  after_record-called :
      (t : Tables) (r : Policy.Result) (token : String) (inserted : Option StoreError × Db)
      → (after_record sha256 e c t (approval_reply sha256 e c r token) inserted).called ≡ false
  after_record-called t r token (some error, db) = refl
  after_record-called t r token (none, db) = refl

  after_approval-called :
      (t : Tables) (r : Policy.Result) (token : String) (inserted : Option StoreError × Db)
      → (after_approval sha256 e c t r token inserted).called ≡ false
  after_approval-called t r token (some error, db) = refl
  after_approval-called t r token (none, db) = after_record-called t r token _

  with_token-called :
      (t : Tables) (r : Policy.Result) (token : Option String)
      → (with_token sha256 e c t r token).called ≡ false
  with_token-called t r none = refl
  with_token-called t r (some token) = after_approval-called t r token _

  require_approval-called :
      (t : Tables) (r : Policy.Result) → (require_approval sha256 e c t r).called ≡ false
  unfolding require_approval
  require_approval-called t r =
      elim (Bool-cases (check_feature_access e.license "approval_workflows" == "")) [
        | inl open_feature ↦ rw open_feature (with_token-called t r e.new_token)
        | inr locked ↦ rw locked
      ]

  deny_rate_limit-called :
      (t : Tables) (r : Policy.Result) (v : RateLimitViolation)
      → (deny_rate_limit e c t r v).called ≡ true
      → is_shadow_mode c.mode ≡ true
  unfolding deny_rate_limit deny
  deny_rate_limit-called t r v called = after_denial-called t _ _ _ _ called

  deny_arguments-called :
      (t : Tables) (r : Policy.Result) (v : ArgConstraintViolation)
      → (deny_arguments e c t r v).called ≡ true
      → is_shadow_mode c.mode ≡ true
  unfolding deny_arguments deny
  deny_arguments-called t r v called = after_denial-called t _ _ _ _ called

  deny_policy-called :
      (t : Tables) (r : Policy.Result)
      → (deny_policy e c t r).called ≡ true
      → is_shadow_mode c.mode ≡ true
  unfolding deny_policy deny
  deny_policy-called t r called = after_denial-called t _ _ _ _ called

  decide-called :
      (t : Tables) (r : Policy.Result)
      → (decide sha256 e c t r).called ≡ true
      → (is_shadow_mode c.mode ≡ true) ⊎ (r.decision ≡ "ALLOW")
  unfolding decide
  decide-called t r called = elim (Bool-cases (r.decision == "DENY")) [
    | inl denied ↦ inl (deny_policy-called t r (rw denied at called))
    | inr d ↦ elim (Bool-cases (r.decision == "REQUIRE_APPROVAL")) [
      | inl asked ↦
          let asks : (require_approval sha256 e c t r).called ≡ true = rw (d, asked) at called in
          absurd (cc (asks, require_approval-called t r))
      | inr a ↦ elim (Bool-cases (r.decision == "ALLOW")) [
        | inl allowed ↦ inr ((eq_iff r.decision "ALLOW").0 allowed)
        | inr other ↦ absurd (let no_call : false ≡ true = rw (d, a, other) at called in cc)
      ]
    ]
  ]

module _ ⦃u : Unicode⦄ ⦃l : Url⦄ (o : Outside) (e : GateEnv) (tenant_id agent_id : String)
    (p : ToolCallRequest) where
  -- The tenant's mode is shadow.
  abbrev pub Shadowed : Type 0
  Shadowed =
      (mode : String) × (tenant_enforcement_mode e.shadow_feature e.tenant_mode ≡ some mode)
      × (is_shadow_mode mode ≡ true)

  abbrev pub checked_arguments : Policy.Result → Option ArgConstraintViolation
  checked_arguments r =
      enforce_argument_constraints o.compile (arguments_of o e p) e.arg_flag e.arg_fallback
        r.constraints

  abbrev pub checked_limits : Tables → Classification.Result → Policy.Result → Verdict × Counters
  checked_limits t k r =
      enforce_rate_limit o.parse_int e.rate_limits e.rate_config_answers e.counter_answers
        e.rate_config (limit_key o e tenant_id agent_id p k) r.constraints e.now t.counters

  -- A result allows the call, and neither the limits nor the constraints on arguments object.
  abbrev pub Cleared : Tables → Classification.Result → Policy.Result → Type 0
  Cleared t k r =
      (r.decision ≡ "ALLOW") × ((checked_limits t k r).0 ≡ within) × (checked_arguments r ≡ none)

  after_arguments-called :
      (t : Tables) (c : Call) (r : Policy.Result) (found : Option ArgConstraintViolation)
      → (after_arguments o e tenant_id agent_id p t c r found).called ≡ true
      → (is_shadow_mode c.mode ≡ true) ⊎ ((r.decision ≡ "ALLOW") × (found ≡ none))
  after_arguments-called t c r none called = elim (decide-called o.sha256 e c t r called) [
    | inl shadow ↦ inl shadow
    | inr allowed ↦ inr (allowed, refl)
  ]
  after_arguments-called t c r (some v) called =
      inl (deny_arguments-called o.sha256 e c t r v called)

  after_limits-called :
      (t : Tables) (c : Call) (r : Policy.Result) (found : Verdict × Counters)
      → (after_limits o e tenant_id agent_id p t c r found).called ≡ true
      → (is_shadow_mode c.mode ≡ true)
        ⊎ ((r.decision ≡ "ALLOW") × (found.0 ≡ within) × (checked_arguments r ≡ none))
  unfolding check_arguments
  after_limits-called t c r (check_failed, counters) called = absurd (cc called)
  after_limits-called t c r (violates v, counters) called =
      inl (deny_rate_limit-called o.sha256 e c _ r v called)
  after_limits-called t c r (within, counters) called =
      elim (after_arguments-called _ c r (checked_arguments r) called) [
        | inl shadow ↦ inl shadow
        | inr (allowed, passed) ↦ inr (allowed, refl, passed)
      ]

  with_mode-called :
      (t : Tables) (k : Classification.Result) (r : Policy.Result) (mode : Option String)
      → tenant_enforcement_mode e.shadow_feature e.tenant_mode ≡ mode
      → (with_mode o e tenant_id agent_id p t k r mode).called ≡ true
      → Shadowed ⊎ Cleared t k r
  unfolding check_limits
  with_mode-called t k r none same called = absurd (cc called)
  with_mode-called t k r (some mode) same called =
      elim (after_limits-called t (call_of o e tenant_id agent_id p k mode) r (checked_limits t k r)
        called) [ inl shadow ↦ inl (mode, same, shadow) | inr cleared ↦ inr cleared ]

  -- The policies, asked about the call, return a result that allows it and clears the limits.
  abbrev pub PolicyCleared : Tables → Classification.Result → EvalOutcome → Type 0
  PolicyCleared t k outcome =
      (r : Policy.Result) × (outcome ≡ evaluated r) × Cleared t k (settled r)

  after_evaluation-called :
      (t : Tables) (k : Classification.Result) (outcome : EvalOutcome)
      → (after_evaluation o e tenant_id agent_id p t k outcome).called ≡ true
      → Shadowed ⊎ PolicyCleared t k outcome
  unfolding settled
  after_evaluation-called t k (evaluated r) called =
      elim (with_mode-called t k (settled r) _ refl called) [
        | inl shadow ↦ inl shadow
        | inr cleared ↦ inr (r, refl, cleared)
      ]
  after_evaluation-called t k (invalid_output reason version) called =
      elim (with_mode-called t k (settled (invalid_result k.action_risk version)) _ refl called) [
        | inl shadow ↦ inl shadow
        | inr cleared ↦
            let denied : ◌≡◌ {A = String} "DENY" "ALLOW" = cleared.0 in
            absurd (ground (arith, eq_iff "DENY" "ALLOW"))
      ]
  after_evaluation-called t k eval_failed called = absurd (cc called)

  abbrev pub PolicyAllows : Tables → Classification.Result → Option (Members → EvalOutcome) → Type 0
  PolicyAllows t k none = ⊥
  PolicyAllows t k (some policy) = PolicyCleared t k (policy (input_of o e tenant_id agent_id p k))

  with_policy-called :
      (t : Tables) (k : Classification.Result) (policy : Option (Members → EvalOutcome))
      → (with_policy o e tenant_id agent_id p t k policy).called ≡ true
      → (file_refusal o e tenant_id agent_id p ≡ "") × (Shadowed ⊎ PolicyAllows t k policy)
  with_policy-called t k none called = absurd (cc called)
  with_policy-called t k (some policy) called =
      elim (Bool-cases (file_refusal o e tenant_id agent_id p == "")) [
        | inl inside ↦ (
          (eq_iff (file_refusal o e tenant_id agent_id p) "").0 inside,
          after_evaluation-called t k (policy (input_of o e tenant_id agent_id p k))
              (rw inside at called),
        )
        | inr outside ↦ absurd (let no_call : false ≡ true = rw outside at called in cc)
      ]

  -- the classification with the tenant's risk
  abbrev pub classified_by : RiskOverride → Classification.Result → Classification.Result
  classified_by (overridden risk) k = with_risk_override (some risk) k
  classified_by _ k = with_risk_override none k

  with_risk-called :
      (t : Tables) (k : Classification.Result) (found : RiskOverride)
      → (with_risk o e tenant_id agent_id p t k found).called ≡ true
      → (file_refusal o e tenant_id agent_id p ≡ "")
        × (Shadowed ⊎ PolicyAllows t (classified_by found k) e.policy)
  with_risk-called t k (overridden risk) called = with_policy-called t _ e.policy called
  with_risk-called t k not_overridden called = with_policy-called t _ e.policy called
  with_risk-called t k lookup_failed called = absurd (cc called)

  -- A call without an approval reaches the tool only where the check of its files, if switched on, has
  -- no objection, and where either the tenant's mode is shadow, or the policies, asked about the call with
  -- the tenant's risk, return ALLOW and neither the rate limits nor the constraints on its arguments
  -- object.
  pub handle_fresh-called :
      (t : Tables) (k : Classification.Result)
      → (handle_fresh o e tenant_id agent_id p t k).called ≡ true
      → (file_refusal o e tenant_id agent_id p ≡ "")
        × (Shadowed ⊎ PolicyAllows t (classified_by e.risk_override k) e.policy)
  unfolding handle_fresh
  handle_fresh-called t k called = with_risk-called t k e.risk_override called
