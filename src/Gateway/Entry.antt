-- ===== src/Gateway/Entry.antt =====
-- When a call of the gateway reaches the tool, from the request on.
use rbitr.Prelude.{
  String, true, false, ◌≡◌, ◌⊎◌, inl, inr, refl, ◌==◌, ◌||◌, eq_iff, Option, none, some, Bool-cases,
  Unicode, ltb, byte_length,
}
use rbitr.Approval.Execute.Replay.{Authorised, called-Authorised}
use rbitr.Classification as Classification
use rbitr.Classification.{Url}
use rbitr.Classification.Classify.{classify}
use rbitr.License.Quota.{
  Meters, QuotaVerdict, within_quota, over_quota, quota_failed, enforce_usage_quota,
}
use rbitr.Gateway.Env.{
  ToolCallRequest, Authentication, as_tenant, unauthorized, invalid_agent_id, forbidden,
  auth_failed, GateEnv, Outside, Tables,
}
use rbitr.Gateway.Fresh.{file_refusal}
use rbitr.Gateway.Handle.{
  normalized, params_of, dispatch, accept, decode, after_quota, with_auth, handle_tool_call,
}
use rbitr.Gateway.Safety.{Shadowed, PolicyAllows, classified_by, handle_fresh-called}

module _ ⦃u : Unicode⦄ ⦃l : Url⦄ (o : Outside) (e : GateEnv) where
  module _ (tenant_id agent_id : String) (p : ToolCallRequest) where
    abbrev pub classified : Classification.Result
    classified = classify e.tool_id p.http_method p.path p.query

    -- A fresh call that the policies allow, or that shadow mode lets go on.
    abbrev pub FreshWay : Tables → Type 0
    FreshWay t =
        (e.approval_id ≡ "")
        × (e.approval_token ≡ "")
        × (file_refusal o e tenant_id agent_id p ≡ "")
        × (Shadowed o e tenant_id agent_id p
            ⊎ PolicyAllows o e tenant_id agent_id p t
                (classified_by o e tenant_id agent_id p e.risk_override classified) e.policy)

    -- A replay of an approved call.
    abbrev pub ReplayWay : Tables → Type 0
    ReplayWay t = Authorised o.sha256 e.replay (params_of o e tenant_id agent_id p classified) t.db

    dispatch-called :
        (t : Tables)
        → (dispatch o e tenant_id agent_id p t classified).called ≡ true
        → FreshWay t ⊎ ReplayWay t
    unfolding dispatch
    dispatch-called t called = elim (Bool-cases (e.approval_id == "")) [
      | inl no_id ↦ elim (Bool-cases (e.approval_token == "")) [
        | inl no_token ↦
            let (inside, way) =
              handle_fresh-called o e tenant_id agent_id p t classified
                (rw (no_id, no_token) at called) in
            inl (
              (eq_iff e.approval_id "").0 no_id,
              (eq_iff e.approval_token "").0 no_token,
              inside,
              way,
            )
        | inr token ↦ absurd (let no_call : false ≡ true = rw (no_id, token) at called in cc)
      ]
      | inr id ↦ elim (Bool-cases (e.approval_token == "")) [
        | inl no_token ↦ absurd (let no_call : false ≡ true = rw (id, no_token) at called in cc)
        | inr token ↦ inr (
            called-Authorised o.sha256 e.replay (params_of o e tenant_id agent_id p classified) t.db
              (rw (id, token) at called))
      ]
    ]

    accept-called :
        (t : Tables) → (accept o e tenant_id agent_id p t).called ≡ true → FreshWay t ⊎ ReplayWay t
    unfolding accept
    accept-called t called = elim (Bool-cases (p.http_method == "" || p.path == "")) [
      | inl missing ↦ absurd (let no_call : false ≡ true = rw missing at called in cc)
      | inr named ↦ elim (Bool-cases (ltb e.body_limit (byte_length p.body))) [
        | inl large ↦ absurd (let no_call : false ≡ true = rw (named, large) at called in cc)
        | inr fits ↦ dispatch-called t (rw (named, fits) at called)
      ]
    ]

  -- the tables once the call is metered
  abbrev pub metered : String → Tables → Tables
  metered tenant_id t = record t {
    meters =
        (enforce_usage_quota e.license true e.meter_answers
          (record { tenant_id = tenant_id; period = e.period }) t.meters).1;
  }

  -- The tenant and the agent that were authenticated, and the call that was decoded.
  abbrev pub Entered : Tables → Type 0
  Entered t =
      (tenant_id : String) × (agent_id : String) × (p : ToolCallRequest) × (e.authenticated
        ≡ as_tenant tenant_id agent_id)
      × (e.decoded ≡ some p)
      × (FreshWay tenant_id agent_id (normalized o e p) (metered tenant_id t)
          ⊎ ReplayWay tenant_id agent_id (normalized o e p) (metered tenant_id t))

  decode-called :
      (tenant_id agent_id : String) (t : Tables) (found : Option ToolCallRequest)
      → (decode o e tenant_id agent_id t found).called ≡ true
      → (p : ToolCallRequest) × (found ≡ some p)
        × (FreshWay tenant_id agent_id (normalized o e p) t
            ⊎ ReplayWay tenant_id agent_id (normalized o e p) t)
  decode-called tenant_id agent_id t none called = absurd (cc called)
  decode-called tenant_id agent_id t (some p) called =
      (p, refl, accept-called tenant_id agent_id (normalized o e p) t called)

  after_quota-called :
      (tenant_id agent_id : String) (t : Tables) (found : QuotaVerdict × Meters)
      → (after_quota o e tenant_id agent_id t found).called ≡ true
      → (p : ToolCallRequest) × (e.decoded ≡ some p)
        × (FreshWay tenant_id agent_id (normalized o e p) (record t { meters = found.1 })
            ⊎ ReplayWay tenant_id agent_id (normalized o e p) (record t { meters = found.1 }))
  after_quota-called tenant_id agent_id t (quota_failed, meters) called = absurd (cc called)
  after_quota-called tenant_id agent_id t (over_quota v, meters) called = absurd (cc called)
  after_quota-called tenant_id agent_id t (within_quota, meters) called =
      decode-called tenant_id agent_id (record t { meters = meters }) e.decoded called

  with_auth-called :
      (t : Tables) (found : Authentication)
      → e.authenticated ≡ found
      → (with_auth o e t found).called ≡ true
      → Entered t
  with_auth-called t (as_tenant tenant_id agent_id) same called =
      let (p, decoded, way) = after_quota-called tenant_id agent_id t _ called in
      (tenant_id, agent_id, p, same, decoded, way)
  with_auth-called t unauthorized same called = absurd (cc called)
  with_auth-called t invalid_agent_id same called = absurd (cc called)
  with_auth-called t forbidden same called = absurd (cc called)
  with_auth-called t auth_failed same called = absurd (cc called)

  -- A call reaches the tool only for an authenticated tenant and agent, with a body that was decoded,
  -- and in one of two ways. Either it has no approval headers, the check of its files, if switched on,
  -- has no objection, and the tenant's mode is shadow or the policies, asked about the call with the
  -- tenant's risk, return ALLOW and neither the rate limits nor the constraints on its arguments
  -- object. Or it is the replay of a stored request whose token hash and request hash are those of
  -- this call, not after its expiry, which it claims or which is being executed in its retry window.
  pub handle_tool_call-called : (t : Tables) → (handle_tool_call o e t).called ≡ true → Entered t
  unfolding handle_tool_call
  handle_tool_call-called t called = with_auth-called t e.authenticated refl called
