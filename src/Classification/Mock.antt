-- ===== src/Classification/Mock.antt =====
-- The classification of a call of the internal mock tool.
use rbitr.Prelude.{Bool, not, ◌||◌, ◌&&◌, [], ◌∷◌, ◌==◌, if◌then◌else◌}
use rbitr.Classification.{
  payment_refund, data_export, access_role_change, access_grant, Result, new_result, ClassifyInput,
}
use rbitr.Classification.Intents.{has_any, has_all, classify_generic}

-- `POST`, `PUT` or `PATCH`, the test that three of the functions below begin with
abbrev updates : ClassifyInput → Bool
updates i = i.method == "POST" || i.method == "PUT" || i.method == "PATCH"

unfoldable pub is_mock_refund : ClassifyInput → Bool
is_mock_refund i = updates i && has_any i.path_tokens ("refund" ∷ "refunds" ∷ [])

unfoldable pub is_mock_export : ClassifyInput → Bool
is_mock_export i =
    not (i.method == "DELETE") && has_any i.path_tokens ("export" ∷ "exports" ∷ "download" ∷ [])

unfoldable pub is_mock_role_change : ClassifyInput → Bool
is_mock_role_change i =
    updates i
    && has_any i.path_tokens ("role" ∷ "roles" ∷ [])
    && has_any i.path_tokens ("change" ∷ "update" ∷ "assign" ∷ "set" ∷ [])

unfoldable pub is_mock_access_grant : ClassifyInput → Bool
is_mock_access_grant i =
    updates i
    && ((has_any i.path_tokens ("grant" ∷ "invite" ∷ [])
          && has_any i.path_tokens
              ("access" ∷ "permission" ∷ "permissions" ∷ "role" ∷ "roles" ∷ []))
        || has_all i.path_tokens ("permissions" ∷ "assign" ∷ []))

unfoldable pub classify_mock_internal : ClassifyInput → Result
classify_mock_internal i =
    if is_mock_refund i
    then new_result payment_refund "Refund payment"
    else if is_mock_export i
    then new_result data_export "Export customer data"
    else if is_mock_role_change i
    then new_result access_role_change "Change user role"
    else if is_mock_access_grant i
    then new_result access_grant "Grant access"
    else classify_generic i
