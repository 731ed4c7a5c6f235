-- ===== src/Approval/Lifecycle.antt =====
-- The life of an approval request under every sequence of the store's statements, whoever issues
-- them: the gateway, the admin API and the expiry scheduler.
use rbitr.Prelude.{
  ℕ, ◌<◌, String, ◌≡◌, refl, true, none, some, List, [], ◌∷◌, ◌⊎◌, inl, inr, Option, arith, All,
  Bool-cases, Holds, ltb, ◌&&◌, ◌==◌,
}
use rbitr.Approval.{
  Status, pending, approved, denied, revoked, executing, executed, failed, ApprovalRequest, Db,
}
use rbitr.Approval.Store.{
  claim_row, executed_row, failed_row, expired_row, decided_row, claim_approval_execution,
  mark_approval_executed, mark_approval_execution_failed, mark_approval_expired,
  approve_approval_request, deny_approval_request, revoke_approval_request, insert_approval_request,
}
use rbitr.Approval.Store.Rows.{update-All, insert-All}

-- A statement with its arguments. One that the database refuses changes nothing and is no step.
pub data Op : Type 0 where
  request : ApprovalRequest → Op
  approve deny revoke : String → String → String → String → ℕ → Op
  expire : String → String → ℕ → Op
  claim : String → String → String → String → ℕ → Op
  finish : String → String → String → String → ℕ → Op
  fail : String → String → String → ℕ → Op

unfoldable pub apply : Op → Db → Db
unfolding insert_approval_request approve_approval_request deny_approval_request
    revoke_approval_request mark_approval_expired claim_approval_execution mark_approval_executed
    mark_approval_execution_failed
apply (request r) db = (insert_approval_request true r db).1
apply (approve t id by comment now) db = (approve_approval_request true t id by comment now db).1
apply (deny t id by comment now) db = (deny_approval_request true t id by comment now db).1
apply (revoke t id by comment now) db = (revoke_approval_request true t id by comment now db).1
apply (expire t id now) db = (mark_approval_expired true t id now db).1
apply (claim t id token hash now) db = (claim_approval_execution true t id token hash now db).1
apply (finish t id req dec now) db = (mark_approval_executed true t id req dec now db).1
apply (fail t id code now) db = (mark_approval_execution_failed true t id code now db).1

unfoldable pub run : List Op → Db → Db
unfolding apply
run [] db = db
run (op ∷ ops) db = run ops (apply op db)

abbrev pub Known : Option ℕ → Type 0
Known o = (t : ℕ) × (o ≡ some t)

-- What the columns of a row say at each status. An execution was claimed after a decision and
-- before the expiry.
abbrev pub Facts : Status → ApprovalRequest → Type 0
Facts pending r =
    (r.decided_at ≡ none) × (r.executing_at ≡ none) × (r.executed_at ≡ none) × (r.failed_at ≡ none)
Facts executing r =
    Known r.decided_at
    × ((t : ℕ) × (r.executing_at ≡ some t) × (t < r.expires_at))
    × (r.executed_at ≡ none)
    × (r.failed_at ≡ none)
Facts executed r =
    Known r.decided_at
    × ((t : ℕ) × (r.executing_at ≡ some t) × (t < r.expires_at))
    × Known r.executed_at
    × (r.failed_at ≡ none)
Facts failed r =
    Known r.decided_at
    × ((t : ℕ) × (r.executing_at ≡ some t) × (t < r.expires_at))
    × (r.executed_at ≡ none)
    × Known r.failed_at
Facts _ r =
    Known r.decided_at × (r.executing_at ≡ none) × (r.executed_at ≡ none) × (r.failed_at ≡ none)

abbrev pub IsConsistent : ApprovalRequest → Type 0
IsConsistent r = Facts r.status r

-- The gateway creates requests that are pending and blank.
abbrev pub IsFresh : Op → Type 0
IsFresh (request r) = (r.status ≡ pending) × Facts pending r
IsFresh _ = Unit

module _ (r : ApprovalRequest) where
  claim_row-Facts :
      (token hash : String) (now : ℕ) (s : Status)
      → r.status ≡ s
      → Facts s r
      → Holds IsConsistent (claim_row token hash now r)
  unfolding claim_row
  claim_row-Facts token hash now approved e h =
      rw (e, claim_row)
        (elim (Bool-cases
          (ltb now r.expires_at && r.approval_token_hash == token && r.request_hash == hash)) [
            | inl g ↦ rw g (h.0, (now, refl, ground arith), h.2, h.3)
            | inr g ↦ rw g tt
          ])
  claim_row-Facts token hash now _ e h = rw (e, claim_row) tt

  executed_row-Facts :
      (by what : String) (now : ℕ) (s : Status)
      → r.status ≡ s
      → Facts s r
      → Holds IsConsistent (executed_row by what now r)
  unfolding executed_row
  executed_row-Facts by what now executing e h =
      rw (e, executed_row) (rw (h.2, executed_row) (h.0, h.1, (now, refl), h.3))
  executed_row-Facts by what now _ e h = rw (e, executed_row) tt

  failed_row-Facts :
      (code : String) (now : ℕ) (s : Status)
      → r.status ≡ s
      → Facts s r
      → Holds IsConsistent (failed_row code now r)
  unfolding failed_row
  failed_row-Facts code now executing e h = rw (e, failed_row) (h.0, h.1, h.2, (now, refl))
  failed_row-Facts code now _ e h = rw (e, failed_row) tt

  expired_row-Facts :
      (now : ℕ) (s : Status) → r.status ≡ s → Facts s r → Holds IsConsistent (expired_row now r)
  unfolding expired_row
  expired_row-Facts now pending e h = rw (e, expired_row) ((now, refl), h.1, h.2, h.3)
  expired_row-Facts now approved e h = rw (e, expired_row) ((now, refl), h.1, h.2, h.3)
  expired_row-Facts now _ e h = rw (e, expired_row) tt

  -- the three decisions of an administrator
  abbrev IsDecision : Status → Type 0
  IsDecision to = (to ≡ approved) ⊎ (to ≡ denied) ⊎ (to ≡ revoked)

  decided_row-Facts :
      (to : Status) (by comment : String) (now : ℕ) (s : Status)
      → IsDecision to
      → r.status ≡ s
      → Facts s r
      → Holds IsConsistent (decided_row to by comment now r)
  unfolding decided_row
  decided_row-Facts to by comment now pending d e h = rw (e, decided_row) (after d)
    where
      after :
          IsDecision to
          → Facts to (record r {
            status = to;
            decided_at = some now;
            decided_by = by;
            decision_comment = comment;
          })
      after (inl p) = rw p ((now, refl), h.1, h.2, h.3)
      after (inr (inl p)) = rw p ((now, refl), h.1, h.2, h.3)
      after (inr (inr p)) = rw p ((now, refl), h.1, h.2, h.3)
  decided_row-Facts to by comment now _ d e h = rw (e, decided_row) tt

-- One statement keeps every row consistent.
apply-IsConsistent :
    (op : Op) (db : Db)
    → IsFresh op
    → All IsConsistent db.approvals
    → All IsConsistent (apply op db).approvals
unfolding apply
apply-IsConsistent (request r) db h k =
    insert-All IsConsistent r db (let (e, facts) = h in rw e (facts.0, refl, facts.2, refl)) k
apply-IsConsistent (approve t id by comment now) db h k =
    update-All IsConsistent t id true _ db
      (λ r p. decided_row-Facts r approved by comment now r.status (inl refl) refl p) k
apply-IsConsistent (deny t id by comment now) db h k =
    update-All IsConsistent t id true _ db
      (λ r p. decided_row-Facts r denied by comment now r.status (inr (inl refl)) refl p) k
apply-IsConsistent (revoke t id by comment now) db h k =
    update-All IsConsistent t id true _ db
      (λ r p. decided_row-Facts r revoked by comment now r.status (inr (inr refl)) refl p) k
apply-IsConsistent (expire t id now) db h k =
    update-All IsConsistent t id true _ db (λ r p. expired_row-Facts r now r.status refl p) k
apply-IsConsistent (claim t id token hash now) db h k =
    update-All IsConsistent t id true _ db (λ r p. claim_row-Facts r token hash now r.status refl p)
      k
apply-IsConsistent (finish t id req dec now) db h k =
    update-All IsConsistent t id true _ db (λ r p. executed_row-Facts r req dec now r.status refl p)
      k
apply-IsConsistent (fail t id code now) db h k =
    update-All IsConsistent t id true _ db (λ r p. failed_row-Facts r code now r.status refl p) k

-- Under every sequence of the store's statements that creates only blank pending requests, every row
-- stays consistent: an executing, executed or failed request was decided, and was claimed before its
-- expiry; exactly the executed ones have an execution time, exactly the failed ones a failure time;
-- and no request that waits, was refused or lapsed was ever claimed.
pub run-IsConsistent :
    (ops : List Op) (db : Db)
    → All IsFresh ops
    → All IsConsistent db.approvals
    → All IsConsistent (run ops db).approvals
unfolding run
run-IsConsistent [] db h k = k
run-IsConsistent (op ∷ ops) db h k =
    run-IsConsistent ops (apply op db) h.1 (apply-IsConsistent op db h.0 k)
