-- ===== src/Approval/Execute/Replay.antt =====
-- When a replayed call reaches the upstream tool, and what it leaves behind.
use rbitr.Prelude.{
  ◌≤◌, String, ◌≡◌, ◌⊎◌, inl, inr, refl, true, none, some, Option, arith, eq_iff, Bool-cases,
  Option-cases,
}
use rbitr.Approval.{
  Status, approved, executing, ApprovalRequest, Db, StoreError, not_found, invalid_state, db_error,
}
use rbitr.Approval.Store.{
  find_row, claim_approval_execution, selected_for_execution, get_approval_for_execution,
}
use rbitr.Approval.Execute.{
  Params, Env, approval_retry_allowed, resume, after_reread, reread, after_claim, by_status, check,
  handle_approved_tool_call,
}

module _ (sha256 : String → String) (e : Env) (p : Params) where
  abbrev tables_at_reread : Db → Db
  tables_at_reread db =
      e.before_reread
        (claim_approval_execution e.claim_answers p.tenant_id p.approval_id
          (sha256 p.approval_token) p.request_hash e.now (e.before_claim db)).1

  -- The three ways in which a replay gets to call the tool, from the request that it read: it claims
  -- the approved request; or the request is under way, in its retry window; or another replay claimed
  -- the request first, and that execution is under way, in its retry window.
  abbrev pub Way : Db → ApprovalRequest → Type 0
  Way db r =
      ((r.status ≡ approved)
        × ((claim_approval_execution e.claim_answers p.tenant_id p.approval_id
              (sha256 p.approval_token) p.request_hash e.now (e.before_claim db)).0
            ≡ none))
      ⊎ ((r.status ≡ executing) × (approval_retry_allowed r e.now ≡ true))
      ⊎ ((r.status ≡ approved)
          × ((l : ApprovalRequest) × (get_approval_for_execution p.tenant_id p.approval_id
                  (tables_at_reread db)
                ≡ some l)
              × (l.status ≡ executing)
              × (approval_retry_allowed l e.now ≡ true)))

  pub record Authorised (db : Db) : Type 0 where
    pub row : ApprovalRequest
    pub found : find_row p.tenant_id p.approval_id db.approvals ≡ some row
    pub token : row.approval_token_hash ≡ sha256 p.approval_token
    pub hash : row.request_hash ≡ p.request_hash
    pub in_time : e.now ≤ row.expires_at
    pub way : Way db row

  resume-called :
      (r : ApprovalRequest) (db : Db)
      → (resume sha256 e p r db).called ≡ true
      → approval_retry_allowed r e.now ≡ true
  unfolding resume
  resume-called r db c = ground arith

  after_reread-called :
      (s : Status) (l : ApprovalRequest) (db : Db)
      → (after_reread sha256 e p s l db).called ≡ true
      → (s ≡ executing) × (approval_retry_allowed l e.now ≡ true)
  unfolding after_reread
  after_reread-called executing l db c = (refl, resume-called l db c)
  after_reread-called _ l db c = cc

  reread-called :
      (db : Db)
      → (reread sha256 e p db).called ≡ true
      → (l : ApprovalRequest) × (get_approval_for_execution p.tenant_id p.approval_id db ≡ some l)
        × (l.status ≡ executing)
        × (approval_retry_allowed l e.now ≡ true)
  unfolding reread
  reread-called db c = elim (Bool-cases e.reread_answers) [
    | inr silent ↦ cc (rw (silent, reread) at c)
    | inl answers ↦ elim (Option-cases (get_approval_for_execution p.tenant_id p.approval_id db)) [
      | inl missing ↦ cc (rw (missing, reread) at (rw (answers, reread) at c))
      | inr (l, found) ↦
          (let (runs, recent) =
              after_reread-called l.status l db
                (rw (found, reread) at (rw (answers, reread) at c)) in
            (l, found, runs, recent))
    ]
  ]

  after_claim-called :
      (r : ApprovalRequest) (out : Option StoreError × Db)
      → (after_claim sha256 e p r out).called ≡ true
      → (out.0 ≡ none)
        ⊎ ((l : ApprovalRequest) × (get_approval_for_execution p.tenant_id p.approval_id
                (e.before_reread out.1)
              ≡ some l)
            × (l.status ≡ executing)
            × (approval_retry_allowed l e.now ≡ true))
  unfolding after_claim
  after_claim-called r (none, db) c = inl refl
  after_claim-called r (some not_found, db) c = cc
  after_claim-called r (some invalid_state, db) c = inr (reread-called (e.before_reread db) c)
  after_claim-called r (some db_error, db) c = cc

  by_status-called :
      (s : Status) (r : ApprovalRequest) (db : Db)
      → r.status ≡ s
      → (by_status sha256 e p s r db).called ≡ true
      → Way db r
  unfolding by_status
  by_status-called approved r db k c =
      elim (after_claim-called r
        (claim_approval_execution e.claim_answers p.tenant_id p.approval_id
          (sha256 p.approval_token) p.request_hash e.now (e.before_claim db))
        c) [ inl claimed ↦ inl (k, claimed) | inr raced ↦ inr (inr (k, raced)) ]
  by_status-called executing r db k c = inr (inl (k, resume-called r db c))
  by_status-called _ r db k c = cc

  check-called :
      (r : ApprovalRequest) (db : Db)
      → (check sha256 e p r db).called ≡ true
      → (r.approval_token_hash ≡ sha256 p.approval_token)
        × (r.request_hash ≡ p.request_hash)
        × (e.now ≤ r.expires_at)
        × Way db r
  unfolding check
  check-called r db c =
      let dispatched : (by_status sha256 e p r.status r db).called ≡ true = ground arith in
      (
        ground (arith, eq_iff (sha256 p.approval_token) r.approval_token_hash),
        ground (arith, eq_iff r.request_hash p.request_hash),
        ground arith,
        by_status-called r.status r db refl dispatched,
      )

  -- The upstream tool is called only on behalf of a stored request whose token hash is that of the
  -- token presented and whose request hash is that of this very call, not after its expiry, and only
  -- if the replay claimed the approved request itself, or the request is being executed and its
  -- retry window is still open. This holds whatever other requests do to the tables meanwhile.
  pub called-Authorised :
      (db : Db) → (handle_approved_tool_call sha256 e p db).called ≡ true → Authorised db
  unfolding handle_approved_tool_call get_approval_for_execution selected_for_execution
      approval_retry_allowed
  called-Authorised db c = elim (Bool-cases e.lookup_answers) [
    | inr silent ↦ cc (rw (silent, handle_approved_tool_call) at c)
    | inl answers ↦ elim (Option-cases (find_row p.tenant_id p.approval_id db.approvals)) [
      | inl missing ↦ cc (
          rw (missing, handle_approved_tool_call, get_approval_for_execution) at
            (rw (answers, handle_approved_tool_call) at c))
      | inr (x, found) ↦
          (let checked : (check sha256 e p (selected_for_execution x) db).called ≡ true =
              rw (found, handle_approved_tool_call, get_approval_for_execution) at
                (rw (answers, handle_approved_tool_call) at c) in
            let (token, hash, in_time, way) = check-called (selected_for_execution x) db checked in
            record {
              row = x;
              found = found;
              token = token;
              hash = hash;
              in_time = in_time;
              way = way;
            })
    ]
  ]
