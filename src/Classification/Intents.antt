-- ===== src/Classification/Intents.antt =====
-- What the method and the tokens of a request say about its intent, and the classification of a call
-- of any tool that has no rules of its own.
use Prim.Native.String
use rbitr.Prelude.{String, Bool, true, false, ◌||◌, ◌&&◌, List, [], ◌∷◌, ◌==◌, if◌then◌else◌}
use rbitr.Classification.{
  ActionType, crm_delete, data_delete, data_bulk_export, data_export, access_grant, crm_read,
  data_query, data_update, data_read, Result, new_result, ClassifyInput,
}

unfoldable pub member : String → List String → Bool
member v [] = false
member v (t ∷ ts) = t == v || member v ts

unfoldable pub has_any : List String → List String → Bool
unfolding member
has_any set [] = false
has_any set (v ∷ vs) = member v set || has_any set vs

unfoldable pub has_all : List String → List String → Bool
unfolding member
has_all set [] = true
has_all set (v ∷ vs) = member v set && has_all set vs

unfoldable pub is_write_method : String → Bool
is_write_method m = m == "POST" || m == "PUT" || m == "PATCH" || m == "DELETE"

unfoldable pub is_read_method : String → Bool
is_read_method m = m == "GET" || m == "HEAD" || m == "OPTIONS"

unfoldable pub is_delete_intent : ClassifyInput → Bool
is_delete_intent i =
    i.method == "DELETE"
    || (is_write_method i.method
        && has_any i.path_tokens
            ("delete" ∷ "remove" ∷ "revoke" ∷ "purge" ∷ "destroy" ∷ "erase" ∷ []))

unfoldable pub is_export_intent : ClassifyInput → Bool
is_export_intent i =
    has_any i.path_tokens ("export" ∷ "exports" ∷ "download" ∷ "dump" ∷ "extract" ∷ "backup" ∷ [])
    || has_any i.query_tokens ("csv" ∷ "xlsx" ∷ "jsonl" ∷ "parquet" ∷ "export" ∷ "download" ∷ [])

unfoldable pub is_bulk_export_intent : ClassifyInput → Bool
is_bulk_export_intent i =
    is_export_intent i
    && (has_any i.path_tokens ("bulk" ∷ "batch" ∷ "mass" ∷ "multi" ∷ "all" ∷ [])
        || has_any i.query_tokens ("bulk" ∷ "batch" ∷ "all" ∷ "include" ∷ "includeall" ∷ []))

unfoldable pub is_access_grant_intent : ClassifyInput → Bool
is_access_grant_intent i =
    is_write_method i.method
    && ((has_any i.path_tokens ("role" ∷ "roles" ∷ [])
          && has_any i.path_tokens ("change" ∷ "assign" ∷ "update" ∷ []))
        || has_any i.path_tokens (
            "grant" ∷ "permission" ∷ "permissions" ∷ "invite" ∷ "membership" ∷ "member" ∷ "members"
            ∷ []))

unfoldable pub is_query_intent : ClassifyInput → Bool
is_query_intent i =
    has_any i.path_tokens ("search" ∷ "query" ∷ "filter" ∷ "lookup" ∷ "find" ∷ [])
    || has_any i.query_tokens ("q" ∷ "query" ∷ "search" ∷ "jql" ∷ "filter" ∷ "where" ∷ [])

unfoldable pub is_crm_entity : ClassifyInput → Bool
is_crm_entity i = has_any i.path_tokens (
    "crm" ∷ "contact" ∷ "contacts" ∷ "lead" ∷ "leads" ∷ "account" ∷ "accounts" ∷ "opportunity"
    ∷ "opportunities" ∷ "deal" ∷ "deals" ∷ "customer" ∷ "customers" ∷ [])

unfoldable pub by_method : String → ActionType
by_method m =
    if m == "POST" || m == "PUT" || m == "PATCH"
    then data_update
    else if m == "DELETE"
    then data_delete
    else data_read

unfoldable pub classify_generic_action_type : ClassifyInput → ActionType
classify_generic_action_type i =
    if is_delete_intent i
    then (if is_crm_entity i then crm_delete else data_delete)
    else if is_bulk_export_intent i
    then data_bulk_export
    else if is_export_intent i
    then data_export
    else if is_access_grant_intent i
    then access_grant
    else if is_crm_entity i && (is_read_method i.method || is_query_intent i)
    then crm_read
    else if is_query_intent i
    then data_query
    else by_method i.method

unfoldable pub request_summary : ClassifyInput → String
request_summary i = String.◌++◌ i.method (String.◌++◌ " " i.raw_path)

unfoldable pub classify_generic : ClassifyInput → Result
classify_generic i = new_result (classify_generic_action_type i) (request_summary i)
