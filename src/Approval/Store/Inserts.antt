-- ===== src/Approval/Store/Inserts.antt =====
-- A request that was inserted is found, and approving a pending request leaves it approved.
use rbitr.Prelude.{
  inl, inr, ℕ, String, ◌≡◌, ap, Bool, true, false, none, some, Option, List, [], ◌∷◌, ◌++◌, arith,
  eq_iff, Bool-cases,
}
use rbitr.Approval.{pending, approved, ApprovalRequest, Db, StoreError}
use rbitr.Approval.Store.{
  find_row, update, is_taken, inserted_row, insert_approval_request, decided_row,
  approve_approval_request,
}
use rbitr.Approval.Store.Rows.{find_row-has_key, find_row-set_row}

find_row-free :
    (row : ApprovalRequest) (rows : List ApprovalRequest)
    → is_taken row.approval_request_id rows ≡ false
    → find_row row.tenant_id row.approval_request_id (rows ++ row ∷ []) ≡ some row
unfolding find_row is_taken
find_row-free row [] free = ground (
  arith,
  eq_iff row.tenant_id row.tenant_id,
  eq_iff row.approval_request_id row.approval_request_id,
)
find_row-free row (x ∷ rows) free = ground (arith, find_row-free row rows)

pub find_row-insert :
    (answers : Bool) (row : ApprovalRequest) (db after : Db)
    → insert_approval_request answers row db ≡ (none, after)
    → find_row row.tenant_id row.approval_request_id after.approvals ≡ some (inserted_row row)
unfolding insert_approval_request
find_row-insert false row db after e = absurd (cc (ap (λ (r : Option StoreError × Db). r.0) e))
find_row-insert true row db after e =
    elim (Bool-cases (is_taken row.approval_request_id db.approvals)) [
      | inl taken ↦ absurd (
          let bad : ◌≡◌ {A = Option StoreError} (some _) none =
            ap (λ (r : Option StoreError × Db). r.0) (rw (taken, insert_approval_request) at e) in
          cc)
      | inr free ↦
          let same : db.approvals ++ inserted_row row ∷ [] ≡ after.approvals =
            ap (λ (r : Option StoreError × Db). r.1.approvals)
              (rw (free, insert_approval_request) at e) in
          rw (← same) (find_row-free (inserted_row row) db.approvals free)
    ]

-- the row that an approver leaves
abbrev pub approved_row : String → String → ℕ → ApprovalRequest → ApprovalRequest
approved_row by comment now r = record r {
  status = approved;
  decided_at = some now;
  decided_by = by;
  decision_comment = comment;
}

pub find_row-approve :
    (tenant id by comment : String) (now : ℕ) (r : ApprovalRequest) (db : Db)
    → find_row tenant id db.approvals ≡ some r
    → r.status ≡ pending
    → find_row tenant id (approve_approval_request true tenant id by comment now db).1.approvals
      ≡ some (approved_row by comment now r)
unfolding approve_approval_request decided_row
find_row-approve tenant id by comment now r db found waits =
    let changed : decided_row approved by comment now r ≡ some (approved_row by comment now r) =
      rw (waits, decided_row) in
    rw (found, update)
      (rw (changed, update)
        (find_row-set_row tenant id (approved_row by comment now r) r db.approvals
          (find_row-has_key tenant id db.approvals r found) found))
