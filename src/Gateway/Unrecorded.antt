-- ===== src/Gateway/Unrecorded.antt =====
-- The execution of an approved call is not recorded beside the decision that asked for the approval.
use mathlib.Core.Path.{subst}
use rbitr.Prelude.{ℕ, String, Bool, true, ◌≡◌, ◌≢◌, inl, inr, ◌∙◌, Unicode, List}
use rbitr.Http.{reply, ToolCallResponse}
use rbitr.Approval.{ActionDecisionRecord, Db}
use rbitr.Approval.Store.{has_decision, approve_approval_request}
use rbitr.Approval.Store.Decisions.{approve_approval_request-decisions}
use rbitr.Approval.Execute.{Params, Env, handle_approved_tool_call}
use rbitr.Approval.Execute.Records.{handle_approved_tool_call-Recorded}
use rbitr.Policy as Policy
use rbitr.Gateway.Env.{GateEnv, Tables}
use rbitr.Gateway.Deny.{Call}
use rbitr.Gateway.Decide.{require_approval}
use rbitr.Gateway.Opened.{Opened, require_approval-Opens}

-- Where `require_approval` answered a call that it needs an approval, and an approval of the request was
-- tried, a replay with the call's tenant and the id of that answer that answers 200 leaves the table of
-- decisions as the first call left it: the execution adds no record. The id is not empty, the replay's
-- query for a decision with this id is answered, and others leave the table of decisions alone.
pub require_approval-unrecorded :
    ⦃u : Unicode⦄ (sha256 : String → String) (e : GateEnv) (c : Call) (t : Tables)
    (r : Policy.Result) (status : ℕ) (resp : ToolCallResponse) (answers : Bool)
    (by comment : String) (decided : ℕ) (v : Env) (q : Params) (b : ToolCallResponse)
    → (require_approval sha256 e c t r).response ≡ reply status resp
    → q.tenant_id ≡ c.tenant_id
    → q.approval_id ≡ resp.approval_request_id
    → q.approval_id ≢ ""
    → v.insert_answers.exists ≡ true
    → ((x : Db) → (v.before_claim x).decisions ≡ x.decisions)
    → ((x : Db) → (v.before_reread x).decisions ≡ x.decisions)
    → ((x : Db) → (v.during_call x).decisions ≡ x.decisions)
    → (handle_approved_tool_call sha256 v q
        (approve_approval_request answers c.tenant_id resp.approval_request_id by comment decided
          (require_approval sha256 e c t r).tables.db).1).response
      ≡ reply 200 b
    → (handle_approved_tool_call sha256 v q
        (approve_approval_request answers c.tenant_id resp.approval_request_id by comment decided
          (require_approval sha256 e c t r).tables.db).1).db.decisions
      ≡ (require_approval sha256 e c t r).tables.db.decisions
require_approval-unrecorded sha256 e c t r status resp answers by comment decided v q b told tenant
      approval full answered claim reread call success =
    let db = (require_approval sha256 e c t r).tables.db in
    let (row, found, waits, hash, token, expires, named) =
      subst (Opened sha256 c db) told (require_approval-Opens sha256 e c t r) in
    let recorded =
      handle_approved_tool_call-Recorded sha256 v q
        (λ (ds : List ActionDecisionRecord). ds ≡ db.decisions) (λ x held. claim x ∙ held)
        (λ x held. reread x ∙ held) (λ x held. call x ∙ held) _ b
        (approve_approval_request-decisions answers c.tenant_id resp.approval_request_id by comment
          decided db)
        success in
    elim recorded.noted [
      | inl kept ↦ kept.3 ∙ recorded.held
      | inr (reason, allowed) ↦ absurd (
          let there : has_decision q.tenant_id q.approval_id recorded.before ≡ true =
            rw (recorded.held, tenant, approval) named in
          elim reason [ inl empty ↦ full empty | inr (inl silent) ↦ cc | inr (inr absent) ↦ cc ])
    ]
