-- ===== src/Classification/Risk.antt =====
-- The risk that a classification assigns, and what the base policy makes of it.
use rbitr.Prelude.{
  String, ◌≡◌, ◌≢◌, ◌⊎◌, inl, inr, refl, Bool, true, false, ◌==◌, if◌then◌else◌, if-both, arith,
  eq_iff, Bool-cases, Unicode, to_lower, to_upper, trim_space,
}
use rbitr.Classification.{
  Url, ActionType, crm_delete, data_delete, data_bulk_export, data_export, access_grant, crm_read,
  data_query, data_update, data_read, ticket_create, ticket_comment, ticket_update, payment_refund,
  access_role_change, action_text, default_risk, Result, new_result, ClassifyInput,
}
use rbitr.Classification.Input.{new_classify_input}
use rbitr.Classification.Intents.{
  is_delete_intent, is_crm_entity, classify_generic_action_type, request_summary, classify_generic,
}
use rbitr.Classification.Jira.{classify_jira_agile, classify_jira}
use rbitr.Classification.Mock.{
  is_mock_refund, is_mock_export, is_mock_role_change, is_mock_access_grant, classify_mock_internal,
}
use rbitr.Classification.Classify.{classify}
use rbitr.Policy.Base.{base_require_approval, is_critical_risk_action}

-- A result has the default risk of its type.
data IsNew : Result → Type 0 where
  new : (t : ActionType) (s : String) → IsNew (new_result t s)

IsNew-if : (b : Bool) (x y : Result) → IsNew x → IsNew y → IsNew (if b then x else y)
IsNew-if true x y hx hy = hx
IsNew-if false x y hx hy = hy

classify_generic-IsNew : (i : ClassifyInput) → IsNew (classify_generic i)
unfolding classify_generic
classify_generic-IsNew i = new (classify_generic_action_type i) (request_summary i)

classify_jira_agile-IsNew : (i : ClassifyInput) → IsNew (classify_jira_agile i)
unfolding classify_jira_agile
classify_jira_agile-IsNew i = search (IsNew-if, new, classify_generic-IsNew) depth 24

classify_jira-IsNew : (i : ClassifyInput) → IsNew (classify_jira i)
unfolding classify_jira
classify_jira-IsNew i =
    search (IsNew-if, new, classify_generic-IsNew, classify_jira_agile-IsNew) depth 24

classify_mock_internal-IsNew : (i : ClassifyInput) → IsNew (classify_mock_internal i)
unfolding classify_mock_internal
classify_mock_internal-IsNew i = search (IsNew-if, new, classify_generic-IsNew) depth 24

new_result-critical :
    (t : ActionType)
    → base_require_approval (action_text t) (default_risk t)
      ≡ is_critical_risk_action (action_text t)
new_result-critical crm_delete = refl
new_result-critical data_delete = refl
new_result-critical data_bulk_export = refl
new_result-critical data_export = refl
new_result-critical access_grant = refl
new_result-critical crm_read = refl
new_result-critical data_query = refl
new_result-critical data_update = refl
new_result-critical data_read = refl
new_result-critical ticket_create = refl
new_result-critical ticket_comment = refl
new_result-critical ticket_update = refl
new_result-critical payment_refund = refl
new_result-critical access_role_change = refl

IsNew-critical :
    (r : Result)
    → IsNew r
    → base_require_approval r.action_type r.action_risk ≡ is_critical_risk_action r.action_type
IsNew-critical _ (new t s) = new_result-critical t

module _ ⦃u : Unicode⦄ ⦃l : Url⦄ (tool_id method path query : String) where
  classify-IsNew : IsNew (classify tool_id method path query)
  unfolding classify
  classify-IsNew =
      search (IsNew-if, classify_jira-IsNew, classify_mock_internal-IsNew, classify_generic-IsNew)
        depth 24

  -- With the risk that the classifier assigns, the base policy requires an approval for exactly the
  -- calls that are classified as one of its critical actions (the deletions, the exports, the grant
  -- of access and the change of a role), whatever the tool, the method, the path and the query.
  pub classify-critical :
      let r = classify tool_id method path query in
      base_require_approval r.action_type r.action_risk ≡ is_critical_risk_action r.action_type
  classify-critical = IsNew-critical (classify tool_id method path query) classify-IsNew

-- What a deletion is classified as.
abbrev IsDeletion : Result → Type 0
IsDeletion r =
    ((r.action_type ≡ "CRM.DELETE") ⊎ (r.action_type ≡ "DATA.DELETE"))
    × (r.action_risk ≡ "CRITICAL")

classify_generic-delete :
    (i : ClassifyInput) → i.method ≡ "DELETE" → IsDeletion (classify_generic i)
unfolding classify_generic classify_generic_action_type is_delete_intent is_crm_entity
classify_generic-delete i h = elim (Bool-cases (is_crm_entity i)) [
  | inl crm ↦ rw (h, classify_generic_action_type, is_delete_intent) (rw crm (inl refl, refl))
  | inr other ↦ rw (h, classify_generic_action_type, is_delete_intent) (rw other (inr refl, refl))
]

mock-delete :
    (i : ClassifyInput)
    → i.method ≡ "DELETE"
    → (is_mock_refund i ≡ false)
      × (is_mock_export i ≡ false)
      × (is_mock_role_change i ≡ false)
      × (is_mock_access_grant i ≡ false)
unfolding is_mock_refund is_mock_export is_mock_role_change is_mock_access_grant
mock-delete i h = (
  rw (h, is_mock_refund) refl,
  rw (h, is_mock_export) refl,
  rw (h, is_mock_role_change) refl,
  rw (h, is_mock_access_grant) refl,
)

classify_mock_internal-delete :
    (i : ClassifyInput) → i.method ≡ "DELETE" → IsDeletion (classify_mock_internal i)
unfolding classify_mock_internal
classify_mock_internal-delete i h =
    let (refund, exports, role, grant) = mock-delete i h in
    rw (refund, exports, role, grant, classify_mock_internal) (classify_generic-delete i h)

module _ ⦃u : Unicode⦄ ⦃l : Url⦄ where
  method-delete :
      (method path query : String)
      → to_upper (trim_space method) ≡ "DELETE"
      → (new_classify_input method path query).method ≡ "DELETE"
  unfolding new_classify_input
  method-delete method path query h = rw (h, new_classify_input) refl

  -- A call with the method DELETE, in any case and between blanks, of any tool but Jira is classified
  -- as a deletion of CRITICAL risk, whatever its path and query say.
  pub classify-delete :
      (tool_id method path query : String)
      → to_upper (trim_space method) ≡ "DELETE"
      → to_lower (trim_space tool_id) ≢ "jira"
      → let r = classify tool_id method path query in
        ((r.action_type ≡ "CRM.DELETE") ⊎ (r.action_type ≡ "DATA.DELETE"))
        × (r.action_risk ≡ "CRITICAL")
  unfolding classify
  classify-delete tool_id method path query h other =
      let deletes = method-delete method path query h in
      let tool : (to_lower (trim_space tool_id) == "jira") ≡ false =
        ground (arith, eq_iff (to_lower (trim_space tool_id)) "jira") in
      rw (tool, classify)
        (if-both (to_lower (trim_space tool_id) == "mock_internal") IsDeletion
          (classify_mock_internal-delete (new_classify_input method path query) deletes)
          (classify_generic-delete (new_classify_input method path query) deletes))
