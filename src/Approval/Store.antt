-- ===== src/Approval/Store.antt =====
-- The statements on rbitr.approval_requests in internal/store/store.go. `approval_request_id` is the
-- table's primary key, so an UPDATE that names it meets one row at most. An UPDATE and the query of
-- `approvalStateError` that follows a miss are one atomic step. A statement that the database refuses
-- changes nothing: `answers` is false then.
pub mod Rows
pub mod Inserts
pub mod Decisions
use rbitr.Prelude.{
  ℕ, String, Bool, true, false, not, ◌&&◌, ◌||◌, Option, none, some, List, [], ◌∷◌, ◌++◌, ltb, ◌==◌,
  if◌then◌else◌,
}
use rbitr.Approval.{
  Status, approved, denied, revoked, executing, executed, failed, expired, ApprovalRequest,
  ActionDecisionRecord, Db, StoreError, not_found, invalid_state, db_error, is_pending, is_approved,
  is_executing,
}

-- `WHERE tenant_id = … AND approval_request_id = …`
abbrev pub has_key : String → String → ApprovalRequest → Bool
has_key tenant id r = r.tenant_id == tenant && r.approval_request_id == id

unfoldable pub find_row : String → String → List ApprovalRequest → Option ApprovalRequest
find_row tenant id [] = none
find_row tenant id (r ∷ rows) = if has_key tenant id r then some r else find_row tenant id rows

unfoldable pub set_row :
    String → String → ApprovalRequest → List ApprovalRequest → List ApprovalRequest
set_row tenant id v [] = []
set_row tenant id v (r ∷ rows) =
    if has_key tenant id r then v ∷ rows else r ∷ set_row tenant id v rows

-- A row function: `none` where the statement's WHERE clause does not hold of the row.
abbrev pub RowUpdate : Type 0
RowUpdate = ApprovalRequest → Option ApprovalRequest

-- An UPDATE, with `ErrNotFound` or `ErrInvalidState` where it meets no row.
unfoldable pub update : Bool → String → String → RowUpdate → Db → Option StoreError × Db
update false tenant id f db = (some db_error, db)
update true tenant id f db = elim (find_row tenant id db.approvals) [
  | none ↦ (some not_found, db)
  | some r ↦ elim (f r) [
    | none ↦ (some invalid_state, db)
    | some v ↦ (none, record db { approvals = set_row tenant id v db.approvals })
  ]
]

-- `COALESCE(execution_id, approval_request_id)`
abbrev pub coalesce : String → String → String
coalesce a b = if a == "" then b else a

-- the SET clause of the claim
abbrev pub claimed : ℕ → ApprovalRequest → ApprovalRequest
claimed now r = record r {
  status = executing;
  executing_at = some now;
  execution_id = coalesce r.execution_id r.approval_request_id;
  last_error_code = "";
}

unfoldable pub claim_row : String → String → ℕ → RowUpdate
claim_row token_hash request_hash now r =
    if is_approved r.status
      && ltb now r.expires_at
      && r.approval_token_hash == token_hash
      && r.request_hash == request_hash
    then some (claimed now r)
    else none

unfoldable pub executed_row : String → String → ℕ → RowUpdate
executed_row request_id decision_id now r =
    if is_executing r.status
    then elim r.executed_at [
      | none ↦ some (record r {
        status = executed;
        executed_at = some now;
        executed_request_id = request_id;
        executed_decision_id = decision_id;
        last_error_code = "";
      })
      | some _ ↦ none
    ]
    else none

unfoldable pub failed_row : String → ℕ → RowUpdate
failed_row error_code now r =
    if is_executing r.status
    then some (record r { status = failed; failed_at = some now; last_error_code = error_code })
    else none

unfoldable pub expired_row : ℕ → RowUpdate
expired_row now r =
    if is_pending r.status || is_approved r.status
    then some (record r { status = expired; decided_at = some now })
    else none

unfoldable pub decided_row : Status → String → String → ℕ → RowUpdate
decided_row status by comment now r =
    if is_pending r.status
    then some (record r {
      status = status;
      decided_at = some now;
      decided_by = by;
      decision_comment = comment;
    })
    else none

module _ (answers : Bool) (tenant id : String) where
  unfoldable pub claim_approval_execution : String → String → ℕ → Db → Option StoreError × Db
  unfolding update claim_row
  claim_approval_execution token_hash request_hash now =
      update answers tenant id (claim_row token_hash request_hash now)

  unfoldable pub mark_approval_executed : String → String → ℕ → Db → Option StoreError × Db
  unfolding update executed_row
  mark_approval_executed request_id decision_id now =
      update answers tenant id (executed_row request_id decision_id now)

  unfoldable pub mark_approval_execution_failed : String → ℕ → Db → Option StoreError × Db
  unfolding update failed_row
  mark_approval_execution_failed error_code now =
      update answers tenant id (failed_row error_code now)

  unfoldable pub mark_approval_expired : ℕ → Db → Option StoreError × Db
  unfolding update expired_row
  mark_approval_expired now = update answers tenant id (expired_row now)

  unfoldable pub update_approval_decision :
      Status → String → String → ℕ → Db → Option StoreError × Db
  unfolding update decided_row
  update_approval_decision status by comment now =
      update answers tenant id (decided_row status by comment now)

  unfoldable pub approve_approval_request : String → String → ℕ → Db → Option StoreError × Db
  unfolding update_approval_decision
  approve_approval_request = update_approval_decision approved

  unfoldable pub deny_approval_request : String → String → ℕ → Db → Option StoreError × Db
  unfolding update_approval_decision
  deny_approval_request = update_approval_decision denied

  unfoldable pub revoke_approval_request : String → String → ℕ → Db → Option StoreError × Db
  unfolding update_approval_decision
  revoke_approval_request = update_approval_decision revoked

-- The columns that `GetApprovalForExecution` does not select keep their zero value.
unfoldable pub selected_for_execution : ApprovalRequest → ApprovalRequest
selected_for_execution r = record r {
  decided_at = none;
  decided_by = "";
  decision_comment = "";
  executed_at = none;
  executed_request_id = "";
  executed_decision_id = "";
  request_decision_id = "";
}

unfoldable pub get_approval_for_execution : String → String → Db → Option ApprovalRequest
unfolding find_row selected_for_execution
get_approval_for_execution tenant id db = elim (find_row tenant id db.approvals) [
  | none ↦ none
  | some r ↦ some (selected_for_execution r)
]

-- `WHERE tenant_id = … AND approval_request_id = …` of the decisions
unfoldable pub has_decision : String → String → List ActionDecisionRecord → Bool
has_decision tenant id [] = false
has_decision tenant id (adr ∷ adrs) =
    adr.tenant_id == tenant && adr.approval_request_id == id || has_decision tenant id adrs

-- Whether the database answers the query of InsertADR, and its INSERT.
pub record AdrAnswers : Type 0 where
  pub exists : Bool
  pub insert : Bool

-- A record of a decision on an approval is skipped where the tenant has one of this approval; where
-- the query fails it is inserted.
abbrev pub is_duplicate : AdrAnswers → ActionDecisionRecord → Db → Bool
is_duplicate answers adr db =
    not (adr.approval_request_id == "")
    && answers.exists
    && has_decision adr.tenant_id adr.approval_request_id db.decisions

unfoldable pub insert_adr : AdrAnswers → ActionDecisionRecord → Db → Option StoreError × Db
unfolding has_decision
insert_adr answers adr db =
    if is_duplicate answers adr db
    then (none, db)
    else if answers.insert
    then (none, record db { decisions = db.decisions ++ adr ∷ [] })
    else (some db_error, db)

is_taken : String → List ApprovalRequest → Bool
is_taken id [] = false
is_taken id (r ∷ rows) = r.approval_request_id == id || is_taken id rows

-- the columns that the statement leaves NULL
abbrev pub inserted_row : ApprovalRequest → ApprovalRequest
inserted_row r = record r {
  executing_at = none;
  execution_id = "";
  failed_at = none;
  last_error_code = "";
}

-- A duplicate of the primary key is refused by the database.
unfoldable pub insert_approval_request : Bool → ApprovalRequest → Db → Option StoreError × Db
unfolding is_taken
insert_approval_request false r db = (some db_error, db)
insert_approval_request true r db =
    if is_taken r.approval_request_id db.approvals
    then (some db_error, db)
    else (none, record db { approvals = db.approvals ++ inserted_row r ∷ [] })
