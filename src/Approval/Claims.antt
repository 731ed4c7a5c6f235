-- ===== src/Approval/Claims.antt =====
-- Claiming an approved request for execution.
use rbitr.Prelude.{
  ℕ, ◌<◌, String, ◌≡◌, ◌↔◌, ◌⊎◌, inl, inr, refl, ap, true, none, some, Option, List, arith, eq_iff,
}
use rbitr.Approval.{
  Status, approved, executing, executed, failed, ApprovalRequest, Db, StoreError, invalid_state,
}
use rbitr.Approval.Store.{find_row, update, claimed, claim_row, claim_approval_execution}
use rbitr.Approval.Store.Rows.{
  update_refused, update-eq-none, find_row-set_row, find_row-has_key, has_key-SameKey,
}
use rbitr.Approval.Lifecycle.{Op, run}
use rbitr.Approval.History.{
  Reach, here, next, Edge, approving, denying, revoking, lapsing, lapsing_approved, claiming,
  finishing, failing, run-Reach,
}

-- What a claim needs of the row that it names.
abbrev pub IsClaimable : String → String → ℕ → ApprovalRequest → Type 0
IsClaimable token hash now r =
    (r.status ≡ approved)
    × (now < r.expires_at)
    × (r.approval_token_hash ≡ token)
    × (r.request_hash ≡ hash)

claim_row_inv :
    (token hash : String) (now : ℕ) (r v : ApprovalRequest)
    → claim_row token hash now r ≡ some v
    → IsClaimable token hash now r
      × (v.status ≡ executing)
      × (v.executing_at ≡ some now)
      × (v.tenant_id ≡ r.tenant_id)
      × (v.approval_request_id ≡ r.approval_request_id)
unfolding claim_row
claim_row_inv token hash now r v e =
    ground (arith, eq_iff r.approval_token_hash token, eq_iff r.request_hash hash)

claim_row_of_IsClaimable :
    (token hash : String) (now : ℕ) (r : ApprovalRequest)
    → IsClaimable token hash now r
    → claim_row token hash now r ≡ some (claimed now r)
unfolding claim_row
claim_row_of_IsClaimable token hash now r c =
    ground (arith, eq_iff r.approval_token_hash token, eq_iff r.request_hash hash)

module _ (tenant id token hash : String) (now : ℕ) (db : Db) where
  -- A claim succeeds exactly if the request is there, approved, not yet expired, and the hashes of
  -- the token and of the call are the stored ones.
  pub claim_iff : ((claim_approval_execution true tenant id token hash now db).0 ≡ none) ↔ (
      (r : ApprovalRequest) × (find_row tenant id db.approvals ≡ some r)
      × IsClaimable token hash now r)
  unfolding claim_approval_execution
  claim_iff = (
    λ e.
        (let (r, v, found, changed, _) =
            update-eq-none tenant id true (claim_row token hash now) db e in
          (r, found, (claim_row_inv token hash now r v changed).0)),
    λ h.
        (let (r, found, c) = h in
          rw (found, update) (rw (claim_row_of_IsClaimable token hash now r c, update) refl)),
  )

  -- the row after a claim that succeeded
  pub claim-executing :
      (claim_approval_execution true tenant id token hash now db).0 ≡ none
      → let db' = (claim_approval_execution true tenant id token hash now db).1 in
        (v : ApprovalRequest) × (find_row tenant id db'.approvals ≡ some v) × (v.status ≡ executing)
  unfolding claim_approval_execution
  claim-executing e =
      let (r, v, found, changed, after) =
        update-eq-none tenant id true (claim_row token hash now) db e in
      let (_, runs, _, t, i) = claim_row_inv token hash now r v changed in
      (
        v,
        rw after (
            find_row-set_row tenant id v r db.approvals
              (has_key-SameKey tenant id r v (t, i)
                (find_row-has_key tenant id db.approvals r found))
              found),
        runs,
      )

-- Where a request can get from its execution on.
abbrev IsPast : Status → Type 0
IsPast s = (s ≡ executing) ⊎ (s ≡ executed) ⊎ (s ≡ failed)

Edge-IsPast : {s t : Status} → Edge s t → IsPast s → IsPast t
Edge-IsPast finishing h = inr (inl refl)
Edge-IsPast failing h = inr (inr refl)
Edge-IsPast approving h = ground arith
Edge-IsPast denying h = ground arith
Edge-IsPast revoking h = ground arith
Edge-IsPast lapsing h = ground arith
Edge-IsPast lapsing_approved h = ground arith
Edge-IsPast claiming h = ground arith

Reach-IsPast : {r v : ApprovalRequest} → Reach r v → IsPast r.status → IsPast v.status
Reach-IsPast here h = h
Reach-IsPast (next q b) h = Edge-IsPast b.0 (Reach-IsPast q h)

claim_row-none :
    (token hash : String) (now : ℕ) (w : ApprovalRequest)
    → IsPast w.status
    → claim_row token hash now w ≡ none
unfolding claim_row
claim_row-none token hash now w p = ground arith

-- An approval is claimed once: after a claim that succeeded, and whatever statements follow it, each
-- further claim of the request fails with `ErrInvalidState`, with any token, hash and time.
pub claim-claim :
    (tenant id token hash token' hash' : String) (now now' : ℕ) (ops : List Op) (db : Db)
    → (claim_approval_execution true tenant id token hash now db).0 ≡ none
    → let db' = run ops (claim_approval_execution true tenant id token hash now db).1 in
      (claim_approval_execution true tenant id token' hash' now' db').0 ≡ some invalid_state
unfolding claim_approval_execution
claim-claim tenant id token hash token' hash' now now' ops db e =
    let (v, found, runs) = claim-executing tenant id token hash now db e in
    let (w, last, path) =
      run-Reach tenant id ops (claim_approval_execution true tenant id token hash now db).1 v
        found in
    ap (λ (x : Option StoreError × Db). x.0)
      (update_refused tenant id (claim_row token' hash' now')
        (run ops (claim_approval_execution true tenant id token hash now db).1) w last
        (claim_row-none token' hash' now' w (Reach-IsPast path (inl runs))))
