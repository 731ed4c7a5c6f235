-- ===== src/Gateway/Opened.antt =====
-- What is stored where a call is answered that it needs an approval.
use rbitr.Prelude.{String, true, ◌≡◌, inl, inr, refl, ◌==◌, Option, none, some, Bool-cases, Unicode}
use rbitr.Http.{Response, reply}
use rbitr.Approval.{pending, ApprovalRequest, Db, StoreError}
use rbitr.Approval.Store.Decisions.{insert_adr-approvals, insert_adr-has_decision}
use rbitr.Approval.Store.{find_row, has_decision, insert_approval_request}
use rbitr.Approval.Store.Inserts.{find_row-insert}
use rbitr.Policy as Policy
use rbitr.License.{check_feature_access}
use rbitr.Gateway.Env.{GateEnv, Tables, Answer}
use rbitr.Gateway.Deny.{Call, policy_record}
use rbitr.Gateway.Decide.{
  after_record, after_approval, with_token, require_approval, new_approval, approval_reply,
}

-- A pending request that the response names is stored, for the token that the response gives away, and
-- a decision of the tenant has the id of the request.
abbrev pub Opened : (String → String) → Call → Db → Response → Type 0
Opened sha256 c db (reply status resp) =
    (row : ApprovalRequest) × (find_row c.tenant_id resp.approval_request_id db.approvals
      ≡ some row)
    × (row.status ≡ pending)
    × (row.request_hash ≡ c.request_hash)
    × (row.approval_token_hash ≡ sha256 resp.approval_token)
    × (row.expires_at ≡ resp.expires_at)
    × (has_decision c.tenant_id resp.approval_request_id db.decisions ≡ true)
Opened sha256 c db _ = Unit

module _ ⦃u : Unicode⦄ (sha256 : String → String) (e : GateEnv) (c : Call) where
  abbrev pub Opens : Answer → Type 0
  Opens a = Opened sha256 c a.tables.db a.response

  after_record-Opens :
      (t : Tables) (r : Policy.Result) (token : String) (db : Db)
      (inserted : Option StoreError × Db)
      → inserted.1.approvals ≡ db.approvals
      → (inserted.0 ≡ none → has_decision c.tenant_id e.new_approval_id inserted.1.decisions ≡ true)
      → find_row c.tenant_id e.new_approval_id db.approvals ≡ some (new_approval sha256 e c r token)
      → Opens (after_record sha256 e c t (approval_reply sha256 e c r token) inserted)
  after_record-Opens t r token db (some error, after) same named found = tt
  after_record-Opens t r token db (none, after) same named found =
      (new_approval sha256 e c r token, rw same found, refl, refl, refl, refl, named refl)

  after_approval-Opens :
      (t : Tables) (r : Policy.Result) (token : String) (inserted : Option StoreError × Db)
      → insert_approval_request e.approval_answers (new_approval sha256 e c r token) t.db ≡ inserted
      → Opens (after_approval sha256 e c t r token inserted)
  after_approval-Opens t r token (some error, db) i = tt
  after_approval-Opens t r token (none, db) i =
      after_record-Opens t r token db _ (insert_adr-approvals e.adr_answers _ db)
        (insert_adr-has_decision e.adr_answers (policy_record e c r "" e.new_approval_id) db)
        (find_row-insert e.approval_answers (new_approval sha256 e c r token) t.db db i)

  with_token-Opens :
      (t : Tables) (r : Policy.Result) (token : Option String)
      → Opens (with_token sha256 e c t r token)
  with_token-Opens t r none = tt
  with_token-Opens t r (some token) = after_approval-Opens t r token _ refl

  pub require_approval-Opens :
      (t : Tables) (r : Policy.Result) → Opens (require_approval sha256 e c t r)
  unfolding require_approval
  require_approval-Opens t r =
      elim (Bool-cases (check_feature_access e.license "approval_workflows" == "")) [
        | inl licensed ↦ rw licensed (with_token-Opens t r e.new_token)
        | inr locked ↦ rw locked tt
      ]
