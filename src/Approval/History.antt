-- ===== src/Approval/History.antt =====
-- What can become of one approval request: the transitions of its status, and what never changes.
use rbitr.Prelude.{
  ℕ, String, ◌≡◌, ◌⊎◌, inl, inr, refl, true, none, some, Option, List, [], ◌∷◌, ◌&&◌, ◌==◌, ltb,
  arith, Holds, Bool-cases, Option-cases,
}
use rbitr.Approval.{
  Status, pending, approved, denied, revoked, executing, executed, failed, expired, ApprovalRequest,
  Db,
}
use rbitr.Approval.Store.{
  find_row, update, RowUpdate, claim_row, executed_row, failed_row, expired_row, decided_row,
}
use rbitr.Approval.Store.Rows.{SameKey, update-found, insert-found}
use rbitr.Approval.Lifecycle.{
  Op, request, approve, deny, revoke, expire, claim, finish, fail, apply, run,
}

-- The transitions that the statements make.
pub data Edge : Status → Status → Type 0 where
  approving : Edge pending approved
  denying : Edge pending denied
  revoking : Edge pending revoked
  lapsing : Edge pending expired
  lapsing_approved : Edge approved expired
  claiming : Edge approved executing
  finishing : Edge executing executed
  failing : Edge executing failed

-- The columns that no statement writes after the request was created.
pub record SameRequest (r v : ApprovalRequest) : Type 0 where
  pub tenant : v.tenant_id ≡ r.tenant_id
  pub id : v.approval_request_id ≡ r.approval_request_id
  pub token : v.approval_token_hash ≡ r.approval_token_hash
  pub hash : v.request_hash ≡ r.request_hash
  pub expiry : v.expires_at ≡ r.expires_at

abbrev pub Becomes : ApprovalRequest → ApprovalRequest → Type 0
Becomes r v = Edge r.status v.status × SameRequest r v

-- A chain of transitions.
pub data Reach (r : ApprovalRequest) : ApprovalRequest → Type 0 where
  here : Reach r r
  next : {v w : ApprovalRequest} → Reach r v → Becomes v w → Reach r w

module _ (r : ApprovalRequest) where
  claim_row-Becomes :
      (token hash : String) (now : ℕ) (s : Status)
      → r.status ≡ s
      → Holds (Becomes r) (claim_row token hash now r)
  unfolding claim_row
  claim_row-Becomes token hash now approved e =
      rw (e, claim_row)
        (elim (Bool-cases
          (ltb now r.expires_at && r.approval_token_hash == token && r.request_hash == hash)) [
            | inl g ↦ rw g (
              claiming,
              record { tenant = refl; id = refl; token = refl; hash = refl; expiry = refl },
            )
            | inr g ↦ rw g tt
          ])
  claim_row-Becomes token hash now _ e = rw (e, claim_row) tt

  executed_row-Becomes :
      (by what : String) (now : ℕ) (s : Status)
      → r.status ≡ s
      → Holds (Becomes r) (executed_row by what now r)
  unfolding executed_row
  executed_row-Becomes by what now executing e =
      rw (e, executed_row)
        (elim (Option-cases r.executed_at) [
          | inl p ↦
              rw (p, executed_row)
                (
                  finishing,
                  record { tenant = refl; id = refl; token = refl; hash = refl; expiry = refl },
                )
          | inr (t, p) ↦ rw (p, executed_row) tt
        ])
  executed_row-Becomes by what now _ e = rw (e, executed_row) tt

  failed_row-Becomes :
      (code : String) (now : ℕ) (s : Status)
      → r.status ≡ s
      → Holds (Becomes r) (failed_row code now r)
  unfolding failed_row
  failed_row-Becomes code now executing e =
      rw (e, failed_row)
        (failing, record { tenant = refl; id = refl; token = refl; hash = refl; expiry = refl })
  failed_row-Becomes code now _ e = rw (e, failed_row) tt

  expired_row-Becomes :
      (now : ℕ) (s : Status) → r.status ≡ s → Holds (Becomes r) (expired_row now r)
  unfolding expired_row
  expired_row-Becomes now pending e =
      rw (e, expired_row)
        (lapsing, record { tenant = refl; id = refl; token = refl; hash = refl; expiry = refl })
  expired_row-Becomes now approved e =
      rw (e, expired_row)
        (
          lapsing_approved,
          record { tenant = refl; id = refl; token = refl; hash = refl; expiry = refl },
        )
  expired_row-Becomes now _ e = rw (e, expired_row) tt

  decided_row-Becomes :
      (to : Status) (by comment : String) (now : ℕ) (s : Status)
      → Edge pending to
      → r.status ≡ s
      → Holds (Becomes r) (decided_row to by comment now r)
  unfolding decided_row
  decided_row-Becomes to by comment now pending d e =
      rw (e, decided_row)
        (d, record { tenant = refl; id = refl; token = refl; hash = refl; expiry = refl })
  decided_row-Becomes to by comment now _ d e = rw (e, decided_row) tt

SameKey-Becomes :
    (x : ApprovalRequest) (o : Option ApprovalRequest) → Holds (Becomes x) o → Holds (SameKey x) o
SameKey-Becomes x none h = tt
SameKey-Becomes x (some v) h = (h.1.tenant, h.1.id)

-- The row that an UPDATE leaves is the old one or a successor.
abbrev After : String → String → ApprovalRequest → Db → Type 0
After tenant id r db =
    (v : ApprovalRequest) × (find_row tenant id db.approvals ≡ some v) × ((v ≡ r) ⊎ Becomes r v)

module _ (tenant id : String) (db : Db) (r : ApprovalRequest)
    (e : find_row tenant id db.approvals ≡ some r) where
  update-After :
      (t' id' : String) (f : RowUpdate)
      → ((x : ApprovalRequest) → Holds (Becomes x) (f x))
      → After tenant id r (update true t' id' f db).1
  update-After t' id' f steps =
      elim (update-found tenant id f db r (λ x. SameKey-Becomes x (f x) (steps x)) e t' id') [
        | inl stays ↦ (r, stays, inl refl)
        | inr (v, changed, found) ↦ (v, found, inr (rw changed at (steps r)))
      ]

  apply-After : (op : Op) → After tenant id r (apply op db)
  unfolding apply
  apply-After (request v) = (r, insert-found tenant id v db r e, inl refl)
  apply-After (approve t i by comment now) =
      update-After t i _
        (λ x. decided_row-Becomes x approved by comment now x.status approving refl)
  apply-After (deny t i by comment now) =
      update-After t i _ (λ x. decided_row-Becomes x denied by comment now x.status denying refl)
  apply-After (revoke t i by comment now) =
      update-After t i _ (λ x. decided_row-Becomes x revoked by comment now x.status revoking refl)
  apply-After (expire t i now) = update-After t i _ (λ x. expired_row-Becomes x now x.status refl)
  apply-After (claim t i token hash now) =
      update-After t i _ (λ x. claim_row-Becomes x token hash now x.status refl)
  apply-After (finish t i req dec now) =
      update-After t i _ (λ x. executed_row-Becomes x req dec now x.status refl)
  apply-After (fail t i code now) =
      update-After t i _ (λ x. failed_row-Becomes x code now x.status refl)

Reach-trans : {r v w : ApprovalRequest} → Reach r v → Reach v w → Reach r w
Reach-trans p here = p
Reach-trans p (next q b) = next (Reach-trans p q) b

Reach-moved : {r v : ApprovalRequest} → (v ≡ r) ⊎ Becomes r v → Reach r v
Reach-moved {r} (inl same) = rw same here
Reach-moved (inr step) = next here step

-- Whatever the store's statements, in any order and with any arguments, a request that is there stays
-- there, its status moves only along the transitions of `Edge`, and its key, its token, the hash of
-- the call that it stands for and its expiry never change.
pub run-Reach :
    (tenant id : String) (ops : List Op) (db : Db) (r : ApprovalRequest)
    → find_row tenant id db.approvals ≡ some r
    → (v : ApprovalRequest) × (find_row tenant id (run ops db).approvals ≡ some v) × Reach r v
unfolding run
run-Reach tenant id [] db r e = (r, e, here)
run-Reach tenant id (op ∷ ops) db r e =
    let (v, found, moved) = apply-After tenant id db r e op in
    let (w, last, rest) = run-Reach tenant id ops (apply op db) v found in
    (w, last, Reach-trans (Reach-moved moved) rest)

abbrev pub IsFinal : Status → Type 0
IsFinal s = (s ≡ denied) ⊎ (s ≡ revoked) ⊎ (s ≡ executed) ⊎ (s ≡ failed) ⊎ (s ≡ expired)

not-Edge-IsFinal : {s t : Status} → Edge s t → ¬ IsFinal s
not-Edge-IsFinal approving f = ground arith
not-Edge-IsFinal denying f = ground arith
not-Edge-IsFinal revoking f = ground arith
not-Edge-IsFinal lapsing f = ground arith
not-Edge-IsFinal lapsing_approved f = ground arith
not-Edge-IsFinal claiming f = ground arith
not-Edge-IsFinal finishing f = ground arith
not-Edge-IsFinal failing f = ground arith

-- A request that was denied, revoked, executed, failed or expired is never changed again, in any
-- column, by any sequence of the store's statements.
pub run-IsFinal :
    (tenant id : String) (ops : List Op) (db : Db) (r : ApprovalRequest)
    → find_row tenant id db.approvals ≡ some r
    → IsFinal r.status
    → find_row tenant id (run ops db).approvals ≡ some r
unfolding run
run-IsFinal tenant id [] db r e f = e
run-IsFinal tenant id (op ∷ ops) db r e f =
    let (v, found, moved) = apply-After tenant id db r e op in
    run-IsFinal tenant id ops (apply op db) r
      (elim moved [ inl same ↦ rw same at found | inr step ↦ absurd (not-Edge-IsFinal step.0 f) ]) f
