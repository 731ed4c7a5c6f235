-- ===== src/Approval/Store/Decisions.antt =====
-- What InsertADR leaves in the table of decisions.
use rbitr.Prelude.{
  ℕ, Option-cases, inl, inr, String, ◌≡◌, ◌≢◌, ◌⊎◌, ◌↔◌, refl, Bool, true, false, none, List, [],
  ◌∷◌, ◌++◌, arith, eq_iff, Bool-cases,
}
use rbitr.Approval.{approved, ActionDecisionRecord, Db}
use rbitr.Approval.Store.{
  AdrAnswers, RowUpdate, update, find_row, claim_row, claim_approval_execution, decided_row,
  update_approval_decision, approve_approval_request, has_decision, is_duplicate, insert_adr,
}

module _ (answers : AdrAnswers) (adr : ActionDecisionRecord) (db : Db) where
  pub insert_adr-duplicate :
      is_duplicate answers adr db ≡ true → insert_adr answers adr db ≡ (none, db)
  unfolding insert_adr
  insert_adr-duplicate again = rw again refl

  pub insert_adr-new :
      is_duplicate answers adr db ≡ false
      → (insert_adr answers adr db).0 ≡ none
      → (insert_adr answers adr db).1 ≡ record db { decisions = db.decisions ++ adr ∷ [] }
  unfolding insert_adr
  insert_adr-new new = elim (Bool-cases answers.insert) [
    | inl stored ↦ rw (new, stored) (λ h. refl)
    | inr refused ↦ rw (new, refused) (λ h. absurd (cc h))
  ]

  pub insert_adr-approvals : (insert_adr answers adr db).1.approvals ≡ db.approvals
  unfolding insert_adr
  insert_adr-approvals = elim (Bool-cases (is_duplicate answers adr db)) [
    | inl again ↦ rw again refl
    | inr new ↦ elim (Bool-cases answers.insert) [
      | inl stored ↦ rw (new, stored) refl
      | inr refused ↦ rw (new, refused) refl
    ]
  ]

  -- what makes a record a duplicate
  pub is_duplicate_iff : (is_duplicate answers adr db ≡ true) ↔ (
      (adr.approval_request_id ≢ "")
      × (answers.exists ≡ true)
      × (has_decision adr.tenant_id adr.approval_request_id db.decisions ≡ true))
  is_duplicate_iff = ground (arith, eq_iff adr.approval_request_id "")

  pub not-is_duplicate :
      is_duplicate answers adr db ≡ false
      → (adr.approval_request_id ≡ "")
        ⊎ (answers.exists ≡ false)
        ⊎ (has_decision adr.tenant_id adr.approval_request_id db.decisions ≡ false)
  not-is_duplicate new = ground (arith, eq_iff adr.approval_request_id "")

-- The statements on approvals leave the decisions alone.
pub update-decisions :
    (answers : Bool) (tenant id : String) (f : RowUpdate) (db : Db)
    → (update answers tenant id f db).1.decisions ≡ db.decisions
unfolding update
update-decisions false tenant id f db = refl
update-decisions true tenant id f db = elim (Option-cases (find_row tenant id db.approvals)) [
  | inl missing ↦ rw (missing, update) refl
  | inr (r, found) ↦ elim (Option-cases (f r)) [
    | inl stays ↦ rw (found, update) (rw (stays, update) refl)
    | inr (v, changed) ↦ rw (found, update) (rw (changed, update) refl)
  ]
]

pub claim_approval_execution-decisions :
    (answers : Bool) (tenant id token_hash request_hash : String) (now : ℕ) (db : Db)
    → (claim_approval_execution answers tenant id token_hash request_hash now db).1.decisions
      ≡ db.decisions
unfolding claim_approval_execution
claim_approval_execution-decisions answers tenant id token_hash request_hash now db =
    update-decisions answers tenant id (claim_row token_hash request_hash now) db

pub approve_approval_request-decisions :
    (answers : Bool) (tenant id by comment : String) (now : ℕ) (db : Db)
    → (approve_approval_request answers tenant id by comment now db).1.decisions ≡ db.decisions
unfolding approve_approval_request update_approval_decision
approve_approval_request-decisions answers tenant id by comment now db =
    update-decisions answers tenant id (decided_row approved by comment now) db

has_decision-append :
    (adr : ActionDecisionRecord) (adrs : List ActionDecisionRecord)
    → has_decision adr.tenant_id adr.approval_request_id (adrs ++ adr ∷ []) ≡ true
unfolding has_decision
has_decision-append adr [] = ground (
  arith,
  eq_iff adr.tenant_id adr.tenant_id,
  eq_iff adr.approval_request_id adr.approval_request_id,
)
has_decision-append adr (x ∷ adrs) = ground (arith, has_decision-append adr adrs)

-- Where the statement succeeds, a decision of the tenant has the record's approval.
pub insert_adr-has_decision :
    (answers : AdrAnswers) (adr : ActionDecisionRecord) (db : Db)
    → (insert_adr answers adr db).0 ≡ none
    → has_decision adr.tenant_id adr.approval_request_id (insert_adr answers adr db).1.decisions
      ≡ true
insert_adr-has_decision answers adr db done = elim (Bool-cases (is_duplicate answers adr db)) [
  | inl again ↦
      rw (insert_adr-duplicate answers adr db again) ((is_duplicate_iff answers adr db).0 again).2
  | inr new ↦ rw (insert_adr-new answers adr db new done) (has_decision-append adr db.decisions)
]
