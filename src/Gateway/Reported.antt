-- ===== src/Gateway/Reported.antt =====
-- The decision that a fresh call is told is recorded, on every branch of the handler.
use rbitr.Prelude.{
  String, Bool, true, false, ◌≡◌, inl, inr, refl, ◌∙◌, ap, ◌==◌, eq_iff, Option, none, some, List,
  [], ◌∷◌, ◌++◌, arith, Bool-cases, Unicode,
}
use rbitr.Http.{ToolResult, tool_response, tool_not_found}
use rbitr.Approval.{ActionDecisionRecord, ApprovalRequest, Db, StoreError}
use rbitr.Approval.Store.{
  AdrAnswers, has_decision, is_duplicate, inserted_row, insert_adr, insert_approval_request,
}
use rbitr.Policy as Policy
use rbitr.License.{check_feature_access}
use rbitr.Gateway.Env.{GateEnv, Tables}
use rbitr.Gateway.Deny.{Call, deny_policy, policy_record}
use rbitr.Gateway.Decide.{
  after_record, after_approval, with_token, require_approval, new_approval, approval_reply,
  after_execution, after_tool, allow, decide,
}
use rbitr.Gateway.Recorded.{Told, insert_adr-none, deny-Told}

pub insert_approval_request-none :
    (answers : Bool) (row : ApprovalRequest) (db after : Db)
    → insert_approval_request answers row db ≡ (none, after)
    → (after.decisions ≡ db.decisions) × (after.approvals ≡ db.approvals ++ inserted_row row ∷ [])
unfolding insert_approval_request
insert_approval_request-none false row db after e =
    absurd (cc (ap (λ (r : Option StoreError × Db). r.0) e))
insert_approval_request-none true row db after e = ground arith

-- A record on an approval that no decision of the tenant names is no duplicate.
not_named :
    (answers : AdrAnswers) (rec : ActionDecisionRecord) (db : Db) (rows : List ActionDecisionRecord)
    → db.decisions ≡ rows
    → has_decision rec.tenant_id rec.approval_request_id rows ≡ false
    → is_duplicate answers rec db ≡ false
not_named answers rec db rows same fresh =
    let absent : has_decision rec.tenant_id rec.approval_request_id db.decisions ≡ false =
      rw same fresh in
    ground arith

-- The id of a new approval is fresh: no decision of the tenant names it.
abbrev pub IsNew : GateEnv → String → List ActionDecisionRecord → Type 0
IsNew e tenant_id rows = has_decision tenant_id e.new_approval_id rows ≡ false

module _ ⦃u : Unicode⦄ (sha256 : String → String) (e : GateEnv) (c : Call) where
  after_record-Told :
      (t : Tables) (r : Policy.Result) (token : String) (db : Db)
      (inserted : Option StoreError × Db)
      → IsNew e c.tenant_id t.db.decisions
      → r.decision ≡ "REQUIRE_APPROVAL"
      → db.decisions ≡ t.db.decisions
      → insert_adr e.adr_answers (policy_record e c r "" e.new_approval_id) db ≡ inserted
      → Told e c t (after_record sha256 e c t (approval_reply sha256 e c r token) inserted)
  after_record-Told t r token db (some error, after) fresh d same i = tt
  after_record-Told t r token db (none, after) fresh d same i = (
    policy_record e c r "" e.new_approval_id,
    insert_adr-none e.adr_answers _ db after
          (not_named e.adr_answers (policy_record e c r "" e.new_approval_id) db t.db.decisions same
            fresh)
          i
        ∙ ap
            (λ (front : List ActionDecisionRecord).
              front ++ policy_record e c r "" e.new_approval_id ∷ [])
            same,
    refl,
    refl,
    refl,
    d,
  )

  after_approval-Told :
      (t : Tables) (r : Policy.Result) (token : String) (inserted : Option StoreError × Db)
      → IsNew e c.tenant_id t.db.decisions
      → r.decision ≡ "REQUIRE_APPROVAL"
      → insert_approval_request e.approval_answers (new_approval sha256 e c r token) t.db ≡ inserted
      → Told e c t (after_approval sha256 e c t r token inserted)
  after_approval-Told t r token (some error, db) fresh d i = tt
  after_approval-Told t r token (none, db) fresh d i =
      after_record-Told t r token db _ fresh d
        (insert_approval_request-none e.approval_answers _ t.db db i).0 refl

  with_token-Told :
      (t : Tables) (r : Policy.Result) (token : Option String)
      → IsNew e c.tenant_id t.db.decisions
      → r.decision ≡ "REQUIRE_APPROVAL"
      → Told e c t (with_token sha256 e c t r token)
  with_token-Told t r none fresh d = tt
  with_token-Told t r (some token) fresh d = after_approval-Told t r token _ fresh d refl

  require_approval-Told :
      (t : Tables) (r : Policy.Result)
      → IsNew e c.tenant_id t.db.decisions
      → r.decision ≡ "REQUIRE_APPROVAL"
      → Told e c t (require_approval sha256 e c t r)
  unfolding require_approval
  require_approval-Told t r fresh d =
      elim (Bool-cases (check_feature_access e.license "approval_workflows" == "")) [
        | inl licensed ↦ rw licensed (with_token-Told t r e.new_token fresh d)
        | inr locked ↦ rw locked tt
      ]

  after_execution-Told :
      (t : Tables) (r : Policy.Result) (status : _) (body hash : String)
      (inserted : Option StoreError × Db)
      → r.decision ≡ "ALLOW"
      → insert_adr e.adr_answers (policy_record e c r hash "") t.db ≡ inserted
      → Told e c t (after_execution sha256 e c t r status body inserted)
  after_execution-Told t r status body hash (some error, db) d i = tt
  after_execution-Told t r status body hash (none, db) d i = (
    policy_record e c r hash "",
    insert_adr-none e.adr_answers _ t.db db refl i,
    refl,
    refl,
    refl,
    d,
  )

  after_tool-Told :
      (t : Tables) (r : Policy.Result) (result : ToolResult)
      → r.decision ≡ "ALLOW"
      → Told e c t (after_tool sha256 e c t r result)
  after_tool-Told t r (tool_response status body hash) d =
      after_execution-Told t r status body hash _ d refl
  after_tool-Told t r tool_not_found d = tt
  after_tool-Told t r _ d = tt

  pub decide-Told :
      (t : Tables) (r : Policy.Result)
      → IsNew e c.tenant_id t.db.decisions
      → Told e c t (decide sha256 e c t r)
  unfolding decide deny_policy allow
  decide-Told t r fresh = elim (Bool-cases (r.decision == "DENY")) [
    | inl denied ↦ rw denied (deny-Told e c t r _ _ _ _ _ refl)
    | inr d ↦ elim (Bool-cases (r.decision == "REQUIRE_APPROVAL")) [
      | inl asked ↦
          rw (d, asked)
            (require_approval-Told t r fresh ((eq_iff r.decision "REQUIRE_APPROVAL").0 asked))
      | inr a ↦ elim (Bool-cases (r.decision == "ALLOW")) [
        | inl allowed ↦
            rw (d, a, allowed) (after_tool-Told t r e.tool ((eq_iff r.decision "ALLOW").0 allowed))
        | inr other ↦ rw (d, a, other) tt
      ]
    ]
  ]
