-- ===== src/Approval/Store/Rows.antt =====
-- How an UPDATE changes the rows that later statements find.
use rbitr.Prelude.{
  String, ◌≡◌, refl, ◌⊎◌, inl, inr, Bool, true, false, ◌&&◌, none, some, List, [], ◌∷◌, ◌++◌, arith,
  ◌==◌, eq_iff, All, All-append, Holds, Bool-cases, Option-cases,
}
use rbitr.Approval.{ApprovalRequest, Db, invalid_state}
use rbitr.Approval.Store.{
  has_key, find_row, set_row, RowUpdate, update, is_taken, inserted_row, insert_approval_request,
}

module _ {κ} (P : ApprovalRequest → Type κ) (tenant id : String) where
  pub find_row-All :
      (rows : List ApprovalRequest) {r : ApprovalRequest}
      → find_row tenant id rows ≡ some r
      → All P rows
      → P r
  unfolding find_row
  find_row-All [] e h = cc
  find_row-All (x ∷ rows) {r} e h = elim (Bool-cases (has_key tenant id x)) [
    | inl same ↦ (let e' : x ≡ r = ground arith in rw (← e') h.0)
    | inr other ↦ find_row-All rows (ground arith) h.1
  ]

  pub set_row-All :
      (v : ApprovalRequest) (rows : List ApprovalRequest)
      → P v
      → All P rows
      → All P (set_row tenant id v rows)
  unfolding set_row
  set_row-All v [] p h = h
  set_row-All v (x ∷ rows) p h = elim (Bool-cases (has_key tenant id x)) [
    | inl same ↦ rw same (p, h.1)
    | inr other ↦ rw other (h.0, set_row-All v rows p h.1)
  ]

  pub update-All :
      (answers : Bool) (f : RowUpdate) (db : Db)
      → ((r : ApprovalRequest) → P r → Holds P (f r))
      → All P db.approvals
      → All P (update answers tenant id f db).1.approvals
  unfolding update
  update-All false f db keep h = h
  update-All true f db keep h = elim (Option-cases (find_row tenant id db.approvals)) [
    | inl missing ↦ rw (missing, update) h
    | inr (r, found) ↦
        rw (found, update)
          (elim (Option-cases (f r)) [
            | inl stays ↦ rw (stays, update) h
            | inr (v, changed) ↦
                rw (changed, update)
                  (set_row-All v db.approvals
                    (rw changed at (keep r (find_row-All db.approvals found h))) h)
          ])
  ]

pub insert-All {κ} :
    (P : ApprovalRequest → Type κ) (r : ApprovalRequest) (db : Db)
    → P (inserted_row r)
    → All P db.approvals
    → All P (insert_approval_request true r db).1.approvals
unfolding insert_approval_request
insert-All P r db p h = elim (Bool-cases (is_taken r.approval_request_id db.approvals)) [
  | inl taken ↦ rw (taken, insert_approval_request) h
  | inr free ↦
      rw (free, insert_approval_request) (All-append db.approvals (inserted_row r ∷ []) P h (p, tt))
]

module _ (tenant id : String) where
  pub find_row-has_key :
      (rows : List ApprovalRequest) (r : ApprovalRequest)
      → find_row tenant id rows ≡ some r
      → has_key tenant id r ≡ true
  unfolding find_row
  find_row-has_key [] r e = cc
  find_row-has_key (x ∷ rows) r e = ground (arith, find_row-has_key rows r)

  pub find_row-set_row :
      (v r : ApprovalRequest) (rows : List ApprovalRequest)
      → has_key tenant id v ≡ true
      → find_row tenant id rows ≡ some r
      → find_row tenant id (set_row tenant id v rows) ≡ some v
  unfolding find_row set_row
  find_row-set_row v r [] k e = cc
  find_row-set_row v r (x ∷ rows) k e = ground (arith, find_row-set_row v r rows k)

  -- An UPDATE that succeeds found a row and put another in its place.
  pub update-eq-none :
      (answers : Bool) (f : RowUpdate) (db : Db)
      → (update answers tenant id f db).0 ≡ none
      → (r v : ApprovalRequest) × (find_row tenant id db.approvals ≡ some r)
        × (f r ≡ some v)
        × ((update answers tenant id f db).1
            ≡ record db { approvals = set_row tenant id v db.approvals })
  unfolding update
  update-eq-none false f db e = cc
  update-eq-none true f db e = elim (Option-cases (find_row tenant id db.approvals)) [
    | inl missing ↦ cc (rw (missing, update) at e)
    | inr (r, found) ↦ elim (Option-cases (f r)) [
      | inl stays ↦ ground arith
      | inr (v, changed) ↦ (r, v, found, changed, rw (found, update) (rw (changed, update) refl))
    ]
  ]

  pub find_row-set_row_ne :
      (tenant' id' : String) (v r : ApprovalRequest) (rows : List ApprovalRequest)
      → (tenant == tenant' && id == id') ≡ false
      → has_key tenant' id' v ≡ true
      → find_row tenant id rows ≡ some r
      → find_row tenant id (set_row tenant' id' v rows) ≡ some r
  unfolding find_row set_row
  find_row-set_row_ne tenant' id' v r [] ne k e = cc
  find_row-set_row_ne tenant' id' v r (x ∷ rows) ne k e =
      elim (Bool-cases (has_key tenant' id' x)) [
        | inl here ↦ ground (
          arith,
          eq_iff tenant tenant',
          eq_iff id id',
          eq_iff x.tenant_id tenant',
          eq_iff x.approval_request_id id',
          eq_iff v.tenant_id tenant',
          eq_iff v.approval_request_id id',
          eq_iff v.tenant_id tenant,
          eq_iff v.approval_request_id id,
          eq_iff x.tenant_id tenant,
          eq_iff x.approval_request_id id,
        )
        | inr there ↦ ground (arith, find_row-set_row_ne tenant' id' v r rows ne k)
      ]

  pub find_row-append :
      (v r : ApprovalRequest) (rows : List ApprovalRequest)
      → find_row tenant id rows ≡ some r
      → find_row tenant id (rows ++ v ∷ []) ≡ some r
  unfolding find_row
  find_row-append v r [] e = cc
  find_row-append v r (x ∷ rows) e = ground (arith, find_row-append v r rows)

-- The row functions of the statements change neither part of the key.
abbrev pub SameKey : ApprovalRequest → ApprovalRequest → Type 0
SameKey r v = (v.tenant_id ≡ r.tenant_id) × (v.approval_request_id ≡ r.approval_request_id)

pub has_key-SameKey :
    (t id : String) (r v : ApprovalRequest)
    → SameKey r v
    → has_key t id r ≡ true
    → has_key t id v ≡ true
has_key-SameKey t id r v (p, q) h = rw (p, q) h

abbrev pub KeepsKey : RowUpdate → Type 0
KeepsKey f = (x : ApprovalRequest) → Holds (SameKey x) (f x)

module _ (tenant id : String) (f : RowUpdate) (db : Db) (r : ApprovalRequest) (keep : KeepsKey f)
    (e : find_row tenant id db.approvals ≡ some r) where
  update-found_self :
      let rows = (update true tenant id f db).1.approvals in
      (find_row tenant id rows ≡ some r)
      ⊎ ((v : ApprovalRequest) × (f r ≡ some v) × (find_row tenant id rows ≡ some v))
  unfolding update
  update-found_self = elim (Option-cases (f r)) [
    | inl stays ↦ inl (rw (e, update) (rw (stays, update) e))
    | inr (v, changed) ↦ inr (
      v,
      changed,
      rw (e, update)
          (rw (changed, update)
            (find_row-set_row tenant id v r db.approvals
              (has_key-SameKey tenant id r v (rw changed at (keep r))
                (find_row-has_key tenant id db.approvals r e))
              e)),
    )
  ]

  update-found_ne :
      (t' id' : String)
      → (tenant == t' && id == id') ≡ false
      → find_row tenant id (update true t' id' f db).1.approvals ≡ some r
  unfolding update
  update-found_ne t' id' ne = elim (Option-cases (find_row t' id' db.approvals)) [
    | inl missing ↦ rw (missing, update) e
    | inr (x, found) ↦ elim (Option-cases (f x)) [
      | inl stays ↦ rw (found, update) (rw (stays, update) e)
      | inr (v, changed) ↦
          rw (found, update)
            (rw (changed, update)
              (find_row-set_row_ne tenant id t' id' v r db.approvals ne
                (has_key-SameKey t' id' x v (rw changed at (keep x))
                  (find_row-has_key t' id' db.approvals x found))
                e))
    ]
  ]

  -- After any UPDATE a row is as it was, or is what the row function makes of it.
  pub update-found :
      (t' id' : String)
      → let rows = (update true t' id' f db).1.approvals in
        (find_row tenant id rows ≡ some r)
        ⊎ ((v : ApprovalRequest) × (f r ≡ some v) × (find_row tenant id rows ≡ some v))
  update-found t' id' = elim (Bool-cases (tenant == t' && id == id')) [
    | inl same ↦
        (let p : t' ≡ tenant = ground (arith, eq_iff tenant t') in
          let q : id' ≡ id = ground (arith, eq_iff id id', eq_iff tenant t') in
          rw (p, q) update-found_self)
    | inr ne ↦ inl (update-found_ne t' id' ne)
  ]

pub insert-found :
    (tenant id : String) (v : ApprovalRequest) (db : Db) (r : ApprovalRequest)
    → find_row tenant id db.approvals ≡ some r
    → find_row tenant id (insert_approval_request true v db).1.approvals ≡ some r
unfolding insert_approval_request
insert-found tenant id v db r e = elim (Bool-cases (is_taken v.approval_request_id db.approvals)) [
  | inl taken ↦ rw (taken, insert_approval_request) e
  | inr free ↦
      rw (free, insert_approval_request)
        (find_row-append tenant id (inserted_row v) r db.approvals e)
]

-- An UPDATE whose WHERE clause does not hold of the row.
pub update_refused :
    (tenant id : String) (f : RowUpdate) (db : Db) (r : ApprovalRequest)
    → find_row tenant id db.approvals ≡ some r
    → f r ≡ none
    → update true tenant id f db ≡ (some invalid_state, db)
unfolding update
update_refused tenant id f db r e n = rw (e, update) (rw (n, update) refl)
