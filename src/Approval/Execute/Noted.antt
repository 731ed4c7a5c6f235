-- ===== src/Approval/Execute/Noted.antt =====
-- The end of a replay: the request that was executed, and the record of its execution.
use rbitr.Prelude.{
  ℕ, String, ◌≡◌, ◌≢◌, ◌⊎◌, inl, inr, refl, ◌∙◌, Bool-cases, eq_iff, Option-cases, true, false,
  Option, none, some, List, [], ◌∷◌, ◌++◌, arith,
}
use rbitr.Approval.{executed, ApprovalRequest, ActionDecisionRecord, Db}
use rbitr.Approval.Store.{
  find_row, executed_row, mark_approval_executed, insert_adr, is_duplicate,
  get_approval_for_execution, has_decision, selected_for_execution,
}
use rbitr.Approval.Store.Rows.{update-eq-none, find_row-set_row, find_row-has_key, has_key-SameKey}
use rbitr.Approval.Store.Decisions.{
  insert_adr-duplicate, insert_adr-new, update-decisions, is_duplicate_iff, not-is_duplicate,
}
use rbitr.Approval.Execute.{Params, Env, execution_record}

executed_row_inv :
    (request_id decision_id : String) (now : ℕ) (r v : ApprovalRequest)
    → executed_row request_id decision_id now r ≡ some v
    → (v.status ≡ executed)
      × (v.executed_request_id ≡ request_id)
      × (v.executed_decision_id ≡ decision_id)
      × (v.tenant_id ≡ r.tenant_id)
      × (v.approval_request_id ≡ r.approval_request_id)
unfolding executed_row
executed_row_inv request_id decision_id now r v e = ground arith

module _ (sha256 : String → String) (e : Env) (p : Params) where
  -- The ALLOW of this call, as it is recorded after other decisions.
  pub record Allowed (before after : List ActionDecisionRecord) : Type 0 where
    pub adr : ActionDecisionRecord
    pub last : after ≡ before ++ adr ∷ []
    pub allows : adr.decision ≡ "ALLOW"
    pub same_decision : adr.decision_id ≡ e.decision_id
    pub same_tenant : adr.tenant_id ≡ p.tenant_id
    pub same_approval : adr.approval_request_id ≡ p.approval_id
    pub same_call : adr.request_hash ≡ p.request_hash

  -- Nothing is recorded where a decision of the tenant has the approval's id, and the query that looks
  -- for it is answered; the ALLOW is recorded in every other case.
  abbrev pub Noted : List ActionDecisionRecord → List ActionDecisionRecord → Type 0
  Noted before after =
      ((p.approval_id ≢ "")
        × (e.insert_answers.exists ≡ true)
        × (has_decision p.tenant_id p.approval_id before ≡ true)
        × (after ≡ before))
      ⊎ (((p.approval_id ≡ "")
            ⊎ (e.insert_answers.exists ≡ false)
            ⊎ (has_decision p.tenant_id p.approval_id before ≡ false))
          × Allowed before after)

  -- The request is executed by this call, and its decision is noted among decisions of which `Held` is
  -- true.
  pub record Recorded (Held : List ActionDecisionRecord → Type 0) (db : Db) : Type 0 where
    pub row : ApprovalRequest
    pub found : find_row p.tenant_id p.approval_id db.approvals ≡ some row
    pub executes : row.status ≡ executed
    pub request : row.executed_request_id ≡ p.request_id
    pub decision : row.executed_decision_id ≡ e.decision_id
    pub before : List ActionDecisionRecord
    pub held : Held before
    pub noted : Noted before db.decisions

  -- The request as `MarkApprovalExecuted` leaves it.
  abbrev pub Marked : Db → Type 0
  Marked db =
      (v : ApprovalRequest) × (find_row p.tenant_id p.approval_id db.approvals ≡ some v)
      × (v.status ≡ executed)
      × (v.executed_request_id ≡ p.request_id)
      × (v.executed_decision_id ≡ e.decision_id)

  pub mark_approval_executed-Marked :
      (db : Db)
      → (mark_approval_executed e.mark_answers p.tenant_id p.approval_id p.request_id e.decision_id
          e.later db).0
        ≡ none
      → Marked
          (mark_approval_executed e.mark_answers p.tenant_id p.approval_id p.request_id
            e.decision_id e.later db).1
  unfolding mark_approval_executed
  mark_approval_executed-Marked db h =
      let (r, v, found, changed, after) =
        update-eq-none p.tenant_id p.approval_id e.mark_answers
          (executed_row p.request_id e.decision_id e.later) db h in
      let (runs, req, dec, t, i) =
        executed_row_inv p.request_id e.decision_id e.later r v changed in
      (
        v,
        rw after (
            find_row-set_row p.tenant_id p.approval_id v r db.approvals
              (has_key-SameKey p.tenant_id p.approval_id r v (t, i)
                (find_row-has_key p.tenant_id p.approval_id db.approvals r found))
              found),
        runs,
        req,
        dec,
      )

  -- the request that was looked up
  abbrev pub Ours : ApprovalRequest → Type 0
  Ours r = r.approval_request_id ≡ p.approval_id

  pub get_approval-Ours :
      (db : Db) (r : ApprovalRequest)
      → get_approval_for_execution p.tenant_id p.approval_id db ≡ some r
      → Ours r
  unfolding get_approval_for_execution selected_for_execution
  get_approval-Ours db r found =
      elim (Option-cases (find_row p.tenant_id p.approval_id db.approvals)) [
        | inl missing ↦ absurd (
            let bad : ◌≡◌ {A = Option ApprovalRequest} none (some r) =
              rw (missing, get_approval_for_execution) at found in
            cc)
        | inr (row, here) ↦
            let key = find_row-has_key p.tenant_id p.approval_id db.approvals row here in
            let named : row.approval_request_id ≡ p.approval_id =
              ground (arith, key, eq_iff row.approval_request_id p.approval_id) in
            let selected : selected_for_execution row ≡ r =
              cc (rw (here, get_approval_for_execution) at found) in
            rw (← selected) named
      ]

  pub insert_adr-Noted :
      (r : ApprovalRequest) (hash : String) (db : Db)
      → r.approval_request_id ≡ p.approval_id
      → let out = insert_adr e.insert_answers (execution_record sha256 e p r hash) db in
        out.0 ≡ none → (out.1.approvals ≡ db.approvals) × Noted db.decisions out.1.decisions
  unfolding insert_adr execution_record
  insert_adr-Noted r hash db same h =
      let adr = execution_record sha256 e p r hash in
      elim (Bool-cases (is_duplicate e.insert_answers adr db)) [
        | inl again ↦
            let (full, answered, there) = (is_duplicate_iff e.insert_answers adr db).0 again in
            rw (insert_adr-duplicate e.insert_answers adr db again)
              (refl, inl (λ empty. full (same ∙ empty), answered, rw (← same) there, refl))
        | inr new ↦ rw (insert_adr-new e.insert_answers adr db new h) (
          refl,
          inr (
            rw (← same) (not-is_duplicate e.insert_answers adr db new),
            record {
              adr = adr;
              last = refl;
              allows = refl;
              same_decision = refl;
              same_tenant = refl;
              same_approval = same;
              same_call = refl;
            },
          ),
        )
      ]

  pub mark_approval_executed-decisions :
      (db : Db)
      → (mark_approval_executed e.mark_answers p.tenant_id p.approval_id p.request_id e.decision_id
          e.later db).1.decisions
        ≡ db.decisions
  unfolding mark_approval_executed
  mark_approval_executed-decisions db =
      update-decisions e.mark_answers p.tenant_id p.approval_id _ db
