-- ===== src/Approval/Execute/Reached.antt =====
-- A replay that nothing stands against reaches the upstream tool.
use rbitr.Prelude.{
  ℕ, ◌<◌, String, ◌≡◌, refl, sym, true, false, none, some, Option, ◌==◌, ◌||◌, false, eq_iff, arith,
  ltb,
}
use rbitr.Http.{ToolResult, tool_response}
use rbitr.Approval.{
  Status, approved, ApprovalRequest, Db, StoreError, not_found, invalid_state, db_error, is_expired,
}
use rbitr.Approval.Store.{
  find_row, claim_approval_execution, selected_for_execution, get_approval_for_execution,
}
use rbitr.Approval.Claims.{claim_iff}
use rbitr.Approval.Execute.{
  Params, Env, after_insert, record_execution, fail_execution, after_call, call_tool, after_claim,
  by_status, check, handle_approved_tool_call,
}

module _ (sha256 : String → String) (e : Env) (p : Params) where
  after_insert-called :
      (status : ℕ) (body : String) (found : Option StoreError × Db)
      → (after_insert sha256 e p status body found).called ≡ true
  unfolding after_insert
  after_insert-called status body (none, db) = refl
  after_insert-called status body (some error, db) = refl

  record_execution-called :
      (r : ApprovalRequest) (status : ℕ) (body hash : String) (found : Option StoreError × Db)
      → (record_execution sha256 e p r status body hash found).called ≡ true
  unfolding record_execution
  record_execution-called r status body hash (none, db) = after_insert-called status body _
  record_execution-called r status body hash (some not_found, db) = refl
  record_execution-called r status body hash (some invalid_state, db) = refl
  record_execution-called r status body hash (some db_error, db) = refl

  call_tool-called :
      (r : ApprovalRequest) (result : ToolResult) (db : Db)
      → (after_call sha256 e p r result db).called ≡ true
  unfolding after_call fail_execution
  call_tool-called r (tool_response status body hash) db =
      record_execution-called r status body hash _
  call_tool-called r _ db = refl

  after_claim-called :
      (r : ApprovalRequest) (found : Option StoreError × Db)
      → found.0 ≡ none
      → (after_claim sha256 e p r found).called ≡ true
  unfolding after_claim call_tool
  after_claim-called r (none, db) h = call_tool-called _ e.tool _
  after_claim-called r (some error, db) h = absurd (cc h)

  -- The stored request is approved, for this token and this call, and not expired, and nothing happens
  -- to the tables before the claim.
  pub record Ready (db : Db) : Type 0 where
    pub row : ApprovalRequest
    pub found : find_row p.tenant_id p.approval_id db.approvals ≡ some row
    pub status : row.status ≡ approved
    pub token : row.approval_token_hash ≡ sha256 p.approval_token
    pub hash : row.request_hash ≡ p.request_hash
    pub in_time : e.now < row.expires_at
    pub lookup_answers : e.lookup_answers ≡ true
    pub claim_answers : e.claim_answers ≡ true
    pub undisturbed : e.before_claim db ≡ db

  by_status-called :
      (s : Status) (r : ApprovalRequest) (db : Db)
      → s ≡ approved
      → (claim_approval_execution e.claim_answers p.tenant_id p.approval_id
          (sha256 p.approval_token)
          p.request_hash
          e.now
          (e.before_claim db)).0
        ≡ none
      → (by_status sha256 e p s r db).called ≡ true
  unfolding by_status
  by_status-called approved r db same claims = after_claim-called r _ claims
  by_status-called _ r db same claims = absurd (cc same)

  check-called :
      (r : ApprovalRequest) (db : Db)
      → r.status ≡ approved
      → r.approval_token_hash ≡ sha256 p.approval_token
      → r.request_hash ≡ p.request_hash
      → e.now < r.expires_at
      → (by_status sha256 e p r.status r db).called ≡ true
      → (check sha256 e p r db).called ≡ true
  unfolding check
  check-called r db status token hash in_time called =
      let same_token : (sha256 p.approval_token == r.approval_token_hash) ≡ true =
        (eq_iff (sha256 p.approval_token) r.approval_token_hash).1 (sym token) in
      let same_hash : (r.request_hash == p.request_hash) ≡ true =
        (eq_iff r.request_hash p.request_hash).1 hash in
      let lives : (is_expired r.status || ltb r.expires_at e.now) ≡ false = ground arith in
      rw (same_token, same_hash, lives) called

  pub handle_approved_tool_call-Ready :
      (db : Db) → Ready db → (handle_approved_tool_call sha256 e p db).called ≡ true
  unfolding handle_approved_tool_call get_approval_for_execution selected_for_execution
  handle_approved_tool_call-Ready db ready =
      let r = ready.row in
      let claims : (claim_approval_execution true p.tenant_id p.approval_id
            (sha256 p.approval_token) p.request_hash e.now db).0
          ≡ none =
        (claim_iff p.tenant_id p.approval_id (sha256 p.approval_token) p.request_hash e.now db).1
          (r, ready.found, (ready.status, ready.in_time, ready.token, ready.hash)) in
      let dispatched : (by_status sha256 e p r.status (selected_for_execution r) db).called ≡ true =
        by_status-called r.status (selected_for_execution r) db ready.status
          (rw (ready.claim_answers, ready.undisturbed) claims) in
      rw (ready.lookup_answers, handle_approved_tool_call)
        (rw (ready.found) (
          check-called (selected_for_execution r) db ready.status ready.token ready.hash
            ready.in_time dispatched))
