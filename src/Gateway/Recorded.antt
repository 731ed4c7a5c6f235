-- ===== src/Gateway/Recorded.antt =====
-- Every decision that a fresh call is told is in the table of decisions.
use rbitr.Prelude.{
  String, false, ◌≡◌, inl, inr, refl, sym, ap, ◌∙◌, Option, none, some, List, [], ◌∷◌, ◌++◌,
  Bool-cases, Unicode,
}
use rbitr.Json.{Members}
use rbitr.Http.{Response, failure, reply, payload, ToolResult, tool_response, tool_not_found}
use rbitr.Approval.{ActionDecisionRecord, DecisionReason, Db, StoreError}
use rbitr.Approval.Store.{AdrAnswers, is_duplicate, insert_adr}
use rbitr.Approval.Store.Decisions.{insert_adr-new}
use rbitr.Policy as Policy
use rbitr.Gateway.Env.{GateEnv, Tables, Answer}
use rbitr.Gateway.Shadow.{is_shadow_mode}
use rbitr.Gateway.Deny.{
  Call, after_denial, shadow_response, deny, decision_record, execute_rest_shadow_deny,
}

-- One record is added, of this decision for this call.
abbrev pub IsRecorded :
    String
    → String
    → String
    → String
    → List ActionDecisionRecord
    → List ActionDecisionRecord
    → Type 0
IsRecorded tenant_id agent_id hash decision before after =
    (rec : ActionDecisionRecord) × (after ≡ before ++ rec ∷ [])
    × (rec.tenant_id ≡ tenant_id)
    × (rec.agent_id ≡ agent_id)
    × (rec.request_hash ≡ hash)
    × (rec.decision ≡ decision)

-- A response that states a decision, where that decision is recorded.
abbrev pub Says :
    String
    → String
    → String
    → List ActionDecisionRecord
    → List ActionDecisionRecord
    → Response
    → Type 0
Says tenant_id agent_id hash before after (reply status resp) =
    IsRecorded tenant_id agent_id hash resp.decision before after
Says tenant_id agent_id hash before after _ = Unit

-- A response that states no decision but a denial.
abbrev pub Denial : Response → Type 0
Denial (reply status resp) = resp.decision ≡ "DENY"
Denial _ = Unit

-- A record that is no duplicate is added, where the statement succeeds.
pub insert_adr-none :
    (answers : AdrAnswers) (rec : ActionDecisionRecord) (db after : Db)
    → is_duplicate answers rec db ≡ false
    → insert_adr answers rec db ≡ (none, after)
    → after.decisions ≡ db.decisions ++ rec ∷ []
insert_adr-none answers rec db after new e =
    sym (ap (λ (r : Option StoreError × Db). r.1.decisions) e)
    ∙ ap (λ (d : Db). d.decisions)
        (insert_adr-new answers rec db new (ap (λ (r : Option StoreError × Db). r.0) e))

module _ ⦃u : Unicode⦄ (e : GateEnv) (c : Call) where
  abbrev pub Told : Tables → Answer → Type 0
  Told t a =
      Says c.tenant_id c.agent_id c.request_hash t.db.decisions a.tables.db.decisions a.response

  abbrev Recorded : String → Tables → Db → Type 0
  Recorded decision t db =
      IsRecorded c.tenant_id c.agent_id c.request_hash decision t.db.decisions db.decisions

  shadow_response-Told :
      (t : Tables) (db : Db) (result : ToolResult) (reasons : List DecisionReason) (meta : Members)
      → Recorded "DENY" t db
      → Says c.tenant_id c.agent_id c.request_hash t.db.decisions db.decisions
          (shadow_response e c result reasons meta)
  shadow_response-Told t db (tool_response status body hash) reasons meta r = r
  shadow_response-Told t db tool_not_found reasons meta r = tt
  shadow_response-Told t db _ reasons meta r = tt

  Denial-Told :
      (t : Tables) (db : Db) (response : Response)
      → Denial response
      → Recorded "DENY" t db
      → Says c.tenant_id c.agent_id c.request_hash t.db.decisions db.decisions response
  Denial-Told t db (reply status resp) d r = rw d r
  Denial-Told t db (failure status error) d r = tt
  Denial-Told t db (payload status object) d r = tt

  after_denial-Told :
      (t : Tables) (reasons : List DecisionReason) (meta : Members) (response : Response)
      (inserted : Option StoreError × Db)
      → Denial response
      → ((db : Db) → inserted ≡ (none, db) → Recorded "DENY" t db)
      → Told t (after_denial e c t reasons meta response inserted)
  unfolding execute_rest_shadow_deny
  after_denial-Told t reasons meta response (some error, db) d r = tt
  after_denial-Told t reasons meta response (none, db) d r =
      elim (Bool-cases (is_shadow_mode c.mode)) [
        | inl shadow ↦ rw shadow (shadow_response-Told t db e.tool reasons meta (r db refl))
        | inr enforced ↦ rw enforced (Denial-Told t db response d (r db refl))
      ]

  pub deny-Told :
      (t : Tables) (r : Policy.Result) (rule_id : String) (priority : _)
      (reasons : List DecisionReason) (constraints : Members) (response : Response)
      → Denial response
      → Told t (deny e c t r rule_id priority reasons constraints response)
  unfolding deny
  deny-Told t r rule_id priority reasons constraints response d =
      after_denial-Told t reasons _ response _ d (λ db inserted. (
        decision_record e c r "DENY" rule_id priority reasons constraints "" "",
        insert_adr-none e.adr_answers _ t.db db refl inserted,
        refl,
        refl,
        refl,
        refl,
      ))
