-- ===== src/Approval/Execute/Records.antt =====
-- What a replay that succeeds leaves in the tables.
use rbitr.Prelude.{
  ℕ, String, ◌≡◌, refl, Bool, true, false, Option, none, some, List, ◌==◌, if◌then◌else◌, not, ◌||◌,
  ltb,
}
use rbitr.Http.{
  ToolCallResponse, reply, ToolResult, tool_response, tool_not_found, connector_missing,
  upstream_timeout, upstream_error,
}
use rbitr.Approval.{
  Status, approved, executing, ApprovalRequest, ActionDecisionRecord, Db, StoreError, not_found,
  invalid_state, db_error, is_expired,
}
use rbitr.Approval.Store.{
  mark_approval_executed, insert_adr, get_approval_for_execution, claim_approval_execution,
}
use rbitr.Approval.Store.Decisions.{claim_approval_execution-decisions}
use rbitr.Approval.Execute.{
  Params, Env, Outcome, approval_retry_allowed, execution_record, record_execution, fail_execution,
  after_insert, refuse, reject, after_call, call_tool, resume, after_reread, reread, after_claim,
  by_status, check, handle_approved_tool_call,
}
use rbitr.Approval.Execute.Noted.{
  Recorded, Marked, Ours, get_approval-Ours, mark_approval_executed-Marked,
  mark_approval_executed-decisions, insert_adr-Noted,
}

-- `Held` is what the others keep of the decisions.
module _ (sha256 : String → String) (e : Env) (p : Params)
    (Held : List ActionDecisionRecord → Type 0)
    (keeps_claim : (x : Db) → Held x.decisions → Held (e.before_claim x).decisions)
    (keeps_reread : (x : Db) → Held x.decisions → Held (e.before_reread x).decisions)
    (keeps_call : (x : Db) → Held x.decisions → Held (e.during_call x).decisions) where
  -- A success is recorded.
  abbrev Keeps : Outcome → Type 0
  Keeps out = (b : ToolCallResponse) → out.response ≡ reply 200 b → Recorded sha256 e p Held out.db

  Keeps-if : (test : Bool) (x y : Outcome) → Keeps x → Keeps y → Keeps (if test then x else y)
  Keeps-if true x y hx hy = hx
  Keeps-if false x y hx hy = hy

  insert_adr-Recorded :
      (r : ApprovalRequest) (hash : String) (db : Db)
      → r.approval_request_id ≡ p.approval_id
      → Held db.decisions
      → Marked sha256 e p db
      → let out = insert_adr e.insert_answers (execution_record sha256 e p r hash) db in
        out.0 ≡ none → Recorded sha256 e p Held out.1
  insert_adr-Recorded r hash db same held (v, found, executes, req, dec) h =
      let (kept, noted) = insert_adr-Noted sha256 e p r hash db same h in
      record {
        row = v;
        found = rw kept found;
        executes = executes;
        request = req;
        decision = dec;
        before = db.decisions;
        held = held;
        noted = noted;
      }

  after_insert-Keeps :
      (status : ℕ) (body : String) (out : Option StoreError × Db)
      → (out.0 ≡ none → Recorded sha256 e p Held out.1)
      → Keeps (after_insert sha256 e p status body out)
  unfolding after_insert
  after_insert-Keeps status body (none, db) h b s = h refl
  after_insert-Keeps status body (some x, db) h b s = cc

  record_execution-Keeps :
      (r : ApprovalRequest) (status : ℕ) (body hash : String) (out : Option StoreError × Db)
      → Ours sha256 e p r
      → Held out.1.decisions
      → (out.0 ≡ none → Marked sha256 e p out.1)
      → Keeps (record_execution sha256 e p r status body hash out)
  unfolding record_execution
  record_execution-Keeps r status body hash (some not_found, db) same held m b s = cc
  record_execution-Keeps r status body hash (some invalid_state, db) same held m b s = cc
  record_execution-Keeps r status body hash (some db_error, db) same held m b s = cc
  record_execution-Keeps r status body hash (none, db) same held m b s =
      after_insert-Keeps status body
        (insert_adr e.insert_answers (execution_record sha256 e p r hash) db)
        (insert_adr-Recorded r hash db same held (m refl)) b s

  after_call-Keeps :
      (r : ApprovalRequest) (t : ToolResult) (db : Db)
      → Ours sha256 e p r
      → Held db.decisions
      → Keeps (after_call sha256 e p r t db)
  unfolding after_call fail_execution
  after_call-Keeps r (tool_response status body hash) db same held b s =
      record_execution-Keeps r status body hash
        (mark_approval_executed e.mark_answers p.tenant_id p.approval_id p.request_id e.decision_id
          e.later db)
        same (rw (mark_approval_executed-decisions sha256 e p db) held)
        (mark_approval_executed-Marked sha256 e p db) b s
  after_call-Keeps r tool_not_found db same held b s = cc
  after_call-Keeps r connector_missing db same held b s = cc
  after_call-Keeps r upstream_timeout db same held b s = cc
  after_call-Keeps r upstream_error db same held b s = cc

  call_tool-Keeps :
      (r : ApprovalRequest) (db : Db)
      → Ours sha256 e p r
      → Held db.decisions
      → Keeps (call_tool sha256 e p r db)
  unfolding call_tool
  call_tool-Keeps r db same held b s =
      after_call-Keeps r e.tool (e.during_call db) same (keeps_call db held) b s

  resume-Keeps :
      (r : ApprovalRequest) (db : Db)
      → Ours sha256 e p r
      → Held db.decisions
      → Keeps (resume sha256 e p r db)
  unfolding resume
  resume-Keeps r db same held = ended r.executed_at
    where
      ended :
          (o : Option ℕ)
          → Keeps (elim o [
            | some _ ↦ refuse db 409 "approval_already_executed"
            | none ↦
                if approval_retry_allowed r e.now
                then call_tool sha256 e p r db
                else refuse db 409 "approval_retry_window_exceeded"
          ])
      ended (some t) = λ b s. cc
      ended none =
          Keeps-if (approval_retry_allowed r e.now) _ _ (call_tool-Keeps r db same held) (λ b s. cc)

  after_reread-Keeps :
      (s : Status) (l : ApprovalRequest) (db : Db)
      → Ours sha256 e p l
      → Held db.decisions
      → Keeps (after_reread sha256 e p s l db)
  unfolding after_reread
  after_reread-Keeps executing l db same held = resume-Keeps l db same held
  after_reread-Keeps _ l db same held = λ b s. cc

  found-Keeps :
      (o : Option ApprovalRequest) (missing : Outcome) (f : ApprovalRequest → Outcome)
      → Keeps missing
      → ((r : ApprovalRequest) → o ≡ some r → Keeps (f r))
      → Keeps (elim o [ none ↦ missing | some r ↦ f r ])
  found-Keeps none missing f h k = h
  found-Keeps (some r) missing f h k = k r refl

  reread-Keeps : (db : Db) → Held db.decisions → Keeps (reread sha256 e p db)
  unfolding reread
  reread-Keeps db held =
      Keeps-if e.reread_answers _ _
        (found-Keeps (get_approval_for_execution p.tenant_id p.approval_id db)
          (refuse db 500 "approval lookup failed") (λ l. after_reread sha256 e p l.status l db)
          (λ b s. cc)
          (λ l found.
            after_reread-Keeps l.status l db (get_approval-Ours sha256 e p db l found) held))
        (λ b s. cc)

  after_claim-Keeps :
      (r : ApprovalRequest) (out : Option StoreError × Db)
      → Ours sha256 e p r
      → Held out.1.decisions
      → Keeps (after_claim sha256 e p r out)
  unfolding after_claim
  after_claim-Keeps r (none, db) same held b s = call_tool-Keeps _ db same held b s
  after_claim-Keeps r (some not_found, db) same held b s = cc
  after_claim-Keeps r (some invalid_state, db) same held b s =
      reread-Keeps (e.before_reread db) (keeps_reread db held) b s
  after_claim-Keeps r (some db_error, db) same held b s = cc

  by_status-Keeps :
      (s : Status) (r : ApprovalRequest) (db : Db)
      → Ours sha256 e p r
      → Held db.decisions
      → Keeps (by_status sha256 e p s r db)
  unfolding by_status
  by_status-Keeps approved r db same held =
      after_claim-Keeps r
        (claim_approval_execution e.claim_answers p.tenant_id p.approval_id
          (sha256 p.approval_token) p.request_hash e.now (e.before_claim db))
        same
        (rw
          (claim_approval_execution-decisions e.claim_answers p.tenant_id p.approval_id
            (sha256 p.approval_token) p.request_hash e.now (e.before_claim db))
          (keeps_claim db held))
  by_status-Keeps executing r db same held = resume-Keeps r db same held
  by_status-Keeps _ r db same held = λ b s. cc

  check-Keeps :
      (r : ApprovalRequest) (db : Db)
      → Ours sha256 e p r
      → Held db.decisions
      → Keeps (check sha256 e p r db)
  unfolding check
  check-Keeps r db same held =
      Keeps-if (not (sha256 p.approval_token == r.approval_token_hash)) _ _ (λ b s. cc)
        (Keeps-if (not (r.request_hash == p.request_hash)) _ _ (λ b s. cc)
          (Keeps-if (is_expired r.status || ltb r.expires_at e.now) _ _ (λ b s. cc)
            (by_status-Keeps r.status r db same held)))

  -- Let others keep what `Held` says of the decisions, before the claim, before the request is read again
  -- and during the call, and let it hold at the start. A replay that answers 200 then leaves the request
  -- executed by this very call, and the table of decisions as follows, from one of which `Held` is true.
  -- Where the approval's id is not empty, one of the tenant's decisions already has it, and the query of
  -- InsertADR is answered, nothing is added. In every other case an ALLOW is added at the end, with the
  -- decision id that the request names, the tenant, the approval, and the hash of this call.
  pub handle_approved_tool_call-Recorded :
      (db : Db) (b : ToolCallResponse)
      → Held db.decisions
      → (handle_approved_tool_call sha256 e p db).response ≡ reply 200 b
      → Recorded sha256 e p Held (handle_approved_tool_call sha256 e p db).db
  unfolding handle_approved_tool_call
  handle_approved_tool_call-Recorded db b held answered =
      Keeps-if e.lookup_answers _ _
        (found-Keeps (get_approval_for_execution p.tenant_id p.approval_id db)
          (reject db "approval_token_invalid" "approval_not_found") (λ r. check sha256 e p r db)
          (λ b s. cc) (λ r found. check-Keeps r db (get_approval-Ours sha256 e p db r found) held))
        (λ b s. cc) b answered
