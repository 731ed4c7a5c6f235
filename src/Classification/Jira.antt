-- ===== src/Classification/Jira.antt =====
-- The classification of a call of Jira.
use rbitr.Prelude.{
  ℕ, zero, suc, String, Bool, not, ◌||◌, ◌&&◌, List, [], ◌∷◌, length, eqb, ltb, ◌==◌, if◌then◌else◌,
}
use rbitr.Classification.{
  data_delete, data_query, ticket_create, ticket_comment, ticket_update, Result, new_result,
  ClassifyInput,
}
use rbitr.Classification.Intents.{has_any, classify_generic}

-- `segments[n]`; each use is guarded by a test of the length
unfoldable pub segment : ℕ → List String → String
segment n [] = ""
segment zero (s ∷ ss) = s
segment (suc n) (s ∷ ss) = segment n ss

unfoldable pub is_jira_path : ClassifyInput → Bool
is_jira_path i =
    not (ltb (length i.segments) 4)
    && segment 0 i.segments == "rest"
    && segment 1 i.segments == "api"

unfoldable pub is_jira_issue_create : ClassifyInput → Bool
is_jira_issue_create i =
    i.method == "POST"
    && is_jira_path i
    && ((eqb (length i.segments) 4 && segment 3 i.segments == "issue")
        || (eqb (length i.segments) 5
            && segment 3 i.segments == "issue"
            && segment 4 i.segments == "bulk"))

unfoldable pub is_jira_issue_comment : ClassifyInput → Bool
is_jira_issue_comment i =
    (i.method == "POST" || i.method == "PUT" || i.method == "PATCH")
    && is_jira_path i
    && has_any i.path_tokens ("issue" ∷ [])
    && has_any i.path_tokens ("comment" ∷ [])

unfoldable pub is_jira_issue_update : ClassifyInput → Bool
is_jira_issue_update i =
    is_jira_path i
    && has_any i.path_tokens ("issue" ∷ [])
    && ((i.method == "PUT" || i.method == "PATCH")
        || (i.method == "POST"
            && has_any i.path_tokens (
                "transition" ∷ "transitions" ∷ "assignee" ∷ "watcher" ∷ "watchers" ∷ "worklog"
                ∷ "attachment" ∷ "attachments" ∷ "archive" ∷ "unarchive" ∷ [])))

unfoldable pub is_jira_comment_delete : ClassifyInput → Bool
is_jira_comment_delete i =
    i.method == "DELETE"
    && is_jira_path i
    && has_any i.path_tokens ("issue" ∷ [])
    && has_any i.path_tokens ("comment" ∷ [])

unfoldable pub is_jira_watcher_or_vote_remove : ClassifyInput → Bool
is_jira_watcher_or_vote_remove i =
    i.method == "DELETE"
    && is_jira_path i
    && has_any i.path_tokens ("issue" ∷ [])
    && has_any i.path_tokens ("watcher" ∷ "watchers" ∷ "vote" ∷ "votes" ∷ [])

unfoldable pub is_jira_issue_link : ClassifyInput → Bool
is_jira_issue_link i = is_jira_path i && has_any i.path_tokens ("issuelink" ∷ "remotelink" ∷ [])

unfoldable pub is_jira_issue_delete : ClassifyInput → Bool
is_jira_issue_delete i =
    i.method == "DELETE" && is_jira_path i && has_any i.path_tokens ("issue" ∷ [])

unfoldable pub is_jira_agile_path : ClassifyInput → Bool
is_jira_agile_path i =
    not (ltb (length i.segments) 3)
    && segment 0 i.segments == "rest"
    && segment 1 i.segments == "agile"

unfoldable pub classify_jira_agile : ClassifyInput → Result
classify_jira_agile i =
    if has_any i.path_tokens ("sprint" ∷ []) && has_any i.path_tokens ("issue" ∷ [])
    then (if i.method == "POST"
        then new_result ticket_update "Move issues to sprint"
        else new_result data_query "Query sprint issues")
    else if has_any i.path_tokens ("sprint" ∷ [])
    then (if i.method == "POST"
        then new_result ticket_create "Create sprint"
        else if i.method == "PUT" || i.method == "PATCH"
        then new_result ticket_update "Update sprint"
        else if i.method == "DELETE"
        then new_result data_delete "Delete sprint"
        else new_result data_query "Query sprints")
    else if has_any i.path_tokens ("board" ∷ [])
    then new_result data_query "Query Jira board"
    else classify_generic i

unfoldable pub is_jira_search : ClassifyInput → Bool
is_jira_search i =
    is_jira_path i
    && (has_any i.path_tokens ("search" ∷ "jql" ∷ [])
        || has_any i.query_tokens ("jql" ∷ "query" ∷ "search" ∷ []))

unfoldable pub classify_jira : ClassifyInput → Result
classify_jira i =
    if is_jira_agile_path i
    then classify_jira_agile i
    else if is_jira_issue_create i
    then new_result ticket_create "Create Jira issue"
    else if is_jira_issue_comment i
    then new_result ticket_comment "Comment on Jira issue"
    else if is_jira_comment_delete i
    then new_result data_delete "Delete Jira comment"
    else if is_jira_watcher_or_vote_remove i
    then new_result ticket_update "Update Jira issue"
    else if is_jira_issue_delete i
    then new_result data_delete "Delete Jira issue"
    else if is_jira_issue_update i
    then new_result ticket_update "Update Jira issue"
    else if is_jira_issue_link i
    then new_result ticket_update "Link Jira issues"
    else if is_jira_search i
    then new_result data_query "Query Jira issues"
    else classify_generic i
