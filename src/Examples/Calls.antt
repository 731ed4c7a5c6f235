-- ===== src/Examples/Calls.antt =====
-- Calls, as they are classified.
use rbitr.Prelude.{
  ◌≡◌, ◌⊎◌, ◌↔◌, refl, true, false, none, some, [], ◌∷◌, All, arith, eq_iff, split, replace_char,
  Unicode, ascii, to_lower, to_upper, trim_space,
}
use rbitr.Classification.{Url}
use rbitr.Classification.Classify.{classify}
use rbitr.Classification.Input.{clean, new_classify_input}
use rbitr.Classification.Intents.{has_any}
use rbitr.Classification.Jira.{classify_jira, is_jira_agile_path, segment, classify_jira_agile}
use rbitr.Classification.Risk.{classify-critical, classify-delete}
use rbitr.Classification.Paths.{
  contains_traversal, is_file_path, sandbox_root, validate_sandbox, validate_tenant_id,
}
use rbitr.Classification.Paths.Sandbox.{IsAccepted, IsInside, validate_sandbox-IsAccepted}
use rbitr.Policy.Base.{base_require_approval, is_critical_risk_action}

-- Paths and queries without escapes.
instance plain : Url
plain = record { parsed_path = λ p. some p; parsed_query = λ q. none }

instance unaccented : Unicode
unaccented = ascii

classify-critical_example :
    let r = classify "crm" "POST" "/accounts/export" "" in
    base_require_approval r.action_type r.action_risk ≡ is_critical_risk_action r.action_type
classify-critical_example = classify-critical "crm" "POST" "/accounts/export" ""

classify-delete_example :
    let r = classify "crm" " delete" "/accounts/7" "" in
    ((r.action_type ≡ "CRM.DELETE") ⊎ (r.action_type ≡ "DATA.DELETE"))
    × (r.action_risk ≡ "CRITICAL")
unfolding to_upper to_lower trim_space
classify-delete_example =
    classify-delete "crm" " delete" "/accounts/7" "" refl (λ e. ground (arith, eq_iff "crm" "jira"))

validate_sandbox-IsAccepted_example :
    IsAccepted (validate_sandbox ("/data/tenants/acme/a.csv" ∷ []) "acme")
    ↔ All (IsInside (sandbox_root "acme")) ("/data/tenants/acme/a.csv" ∷ [])
validate_sandbox-IsAccepted_example =
    validate_sandbox-IsAccepted ("/data/tenants/acme/a.csv" ∷ []) "acme"

-- The deletion of a Jira board counts as a query.
board_deletion : (classify "jira" "DELETE" "/rest/agile/1.0/board/5" "").action_risk ≡ "LOW"
unfolding classify to_lower trim_space classify_jira is_jira_agile_path new_classify_input plain
    segment classify_jira_agile has_any
board_deletion = refl

cleaned : clean "/a/./b/../../../c//d/" ≡ "/c/d"
unfolding clean
cleaned = refl

cleaned_relative : clean "../a/../../b" ≡ "../../b"
unfolding clean
cleaned_relative = refl

backslashes : contains_traversal "a\\..\\b" ≡ true
unfolding contains_traversal split replace_char
backslashes = refl

secrets : is_file_path " /etc/passwd" ≡ true
unfolding is_file_path
secrets = refl

endpoint : is_file_path "/users/7" ≡ false
unfolding is_file_path
endpoint = refl

-- The tenant named by a dot passes for a valid one, and its sandbox is the directory of all.
dot_tenant : (validate_tenant_id "." ≡ true) × (sandbox_root "." ≡ "/data/tenants")
unfolding validate_tenant_id sandbox_root clean
dot_tenant = (refl, refl)
