-- ===== src/Gateway/Reports.antt =====
-- What a fresh call is told, from the policies on.
use rbitr.Prelude.{String, ◌≡◌, inl, inr, refl, ◌==◌, Option, none, some, Bool-cases, Unicode}
use rbitr.Json.{Members}
use mathlib.Core.Path.{subst}
use rbitr.Http.{ToolCallResponse, reply}
use rbitr.Classification as Classification
use rbitr.Classification.{Url}
use rbitr.Policy as Policy
use rbitr.Policy.Evaluate.{EvalOutcome, evaluated, invalid_output, eval_failed}
use rbitr.Limits.{Counters}
use rbitr.Limits.Enforce.{Verdict, within, violates, check_failed}
use rbitr.Arguments.{ArgConstraintViolation}
use rbitr.Gateway.Env.{
  ToolCallRequest, RiskOverride, overridden, not_overridden, lookup_failed, GateEnv, Outside,
  Tables, Answer,
}
use rbitr.Gateway.Deny.{deny_rate_limit, deny_arguments}
use rbitr.Gateway.Fresh.{
  request_hash, call_of, after_arguments, check_arguments, after_limits, check_limits, with_mode,
  after_evaluation, file_refusal, with_policy, with_risk, handle_fresh,
}
use rbitr.Gateway.Recorded.{IsRecorded, Says, deny-Told}
use rbitr.Gateway.Reported.{IsNew, decide-Told}

module _ ⦃u : Unicode⦄ ⦃l : Url⦄ (o : Outside) (e : GateEnv) (tenant_id agent_id : String)
    (p : ToolCallRequest) where
  -- The answer states no decision, or one that is recorded for this call.
  abbrev Reports : Tables → Answer → Type 0
  Reports t a =
      Says tenant_id agent_id (request_hash o e tenant_id agent_id p) t.db.decisions
        a.tables.db.decisions a.response

  after_arguments-Reports :
      (t : Tables) (k : Classification.Result) (mode : String) (r : Policy.Result)
      (found : Option ArgConstraintViolation)
      → IsNew e tenant_id t.db.decisions
      → Reports t (
          after_arguments o e tenant_id agent_id p t
            (call_of o e tenant_id agent_id p k mode)
            r
            found)
  unfolding deny_arguments
  after_arguments-Reports t k mode r none fresh = decide-Told o.sha256 e _ t r fresh
  after_arguments-Reports t k mode r (some v) fresh = deny-Told e _ t r _ _ _ _ _ refl

  after_limits-Reports :
      (t : Tables) (k : Classification.Result) (mode : String) (r : Policy.Result)
      (found : Verdict × Counters)
      → IsNew e tenant_id t.db.decisions
      → Reports t (
          after_limits o e tenant_id agent_id p t (call_of o e tenant_id agent_id p k mode) r found)
  unfolding check_arguments deny_rate_limit
  after_limits-Reports t k mode r (check_failed, counters) fresh = tt
  after_limits-Reports t k mode r (violates v, counters) fresh =
      deny-Told e (call_of o e tenant_id agent_id p k mode) (record t { counters = counters }) r _ _
        _ _ _ tt
  after_limits-Reports t k mode r (within, counters) fresh =
      after_arguments-Reports (record t { counters = counters }) k mode r _ fresh

  with_mode-Reports :
      (t : Tables) (k : Classification.Result) (r : Policy.Result) (mode : Option String)
      → IsNew e tenant_id t.db.decisions
      → Reports t (with_mode o e tenant_id agent_id p t k r mode)
  unfolding check_limits
  with_mode-Reports t k r none fresh = tt
  with_mode-Reports t k r (some mode) fresh = after_limits-Reports t k mode r _ fresh

  after_evaluation-Reports :
      (t : Tables) (k : Classification.Result) (outcome : EvalOutcome)
      → IsNew e tenant_id t.db.decisions
      → Reports t (after_evaluation o e tenant_id agent_id p t k outcome)
  after_evaluation-Reports t k (evaluated r) fresh = with_mode-Reports t k _ _ fresh
  after_evaluation-Reports t k (invalid_output reason version) fresh =
      with_mode-Reports t k _ _ fresh
  after_evaluation-Reports t k eval_failed fresh = tt

  with_policy-Reports :
      (t : Tables) (k : Classification.Result) (policy : Option (Members → EvalOutcome))
      → IsNew e tenant_id t.db.decisions
      → Reports t (with_policy o e tenant_id agent_id p t k policy)
  with_policy-Reports t k none fresh = tt
  with_policy-Reports t k (some policy) fresh =
      elim (Bool-cases (file_refusal o e tenant_id agent_id p == "")) [
        | inl inside ↦ rw inside (after_evaluation-Reports t k _ fresh)
        | inr outside ↦ rw outside tt
      ]

  with_risk-Reports :
      (t : Tables) (k : Classification.Result) (found : RiskOverride)
      → IsNew e tenant_id t.db.decisions
      → Reports t (with_risk o e tenant_id agent_id p t k found)
  with_risk-Reports t k (overridden risk) fresh = with_policy-Reports t _ e.policy fresh
  with_risk-Reports t k not_overridden fresh = with_policy-Reports t _ e.policy fresh
  with_risk-Reports t k lookup_failed fresh = tt

  -- Let no decision of the tenant name the id that a new approval would get. Where a call without an
  -- approval is then answered with a decision (allowed, denied, also in shadow mode, or in need of an
  -- approval), exactly one record is added to the table of decisions, with this decision, the call's
  -- tenant and agent, and its request hash.
  pub handle_fresh-IsRecorded :
      (t : Tables) (k : Classification.Result) (status : _) (resp : ToolCallResponse)
      → IsNew e tenant_id t.db.decisions
      → (handle_fresh o e tenant_id agent_id p t k).response ≡ reply status resp
      → IsRecorded tenant_id agent_id
          (request_hash o e tenant_id agent_id p)
          resp.decision
          t.db.decisions
          (handle_fresh o e tenant_id agent_id p t k).tables.db.decisions
  unfolding handle_fresh
  handle_fresh-IsRecorded t k status resp fresh told =
      subst (Says tenant_id agent_id (request_hash o e tenant_id agent_id p) t.db.decisions _) told
        (with_risk-Reports t k e.risk_override fresh)
