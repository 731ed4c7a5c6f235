-- ===== src/Examples/Approvals.antt =====
-- One approval request, from its creation to its replay.
use rbitr.Prelude.{String, ◌≡◌, ◌↔◌, refl, inr, true, none, some, List, [], ◌∷◌, All}
use rbitr.Http.{blank, tool_response, upstream_timeout, failure}
use rbitr.Approval.{pending, approved, executed, expired, ApprovalRequest, Db, invalid_state}
use rbitr.Approval.Store.{find_row, set_row, claim_approval_execution}
use rbitr.Approval.Lifecycle.{
  Op, request, approve, claim, finish, run, IsConsistent, run-IsConsistent,
}
use rbitr.Approval.History.{Reach, run-Reach, run-IsFinal}
use rbitr.Approval.Claims.{IsClaimable, claim_iff, claim-claim}
use rbitr.Approval.Execute.{Params, Env, handle_approved_tool_call, replay_code}
use rbitr.Approval.Execute.Noted.{Recorded}
use rbitr.Approval.Execute.Records.{handle_approved_tool_call-Recorded}
use rbitr.Approval.Execute.Replay.{Authorised, called-Authorised}

abbrev delete_account : ApprovalRequest
delete_account = record {
  approval_request_id = "ar_1";
  tenant_id = "acme";
  agent_id = "agent";
  tool_id = "crm";
  action_type = "CRM.DELETE";
  request_hash = "call";
  status = pending;
  approval_token_hash = "token";
  expires_at = 900;
  created_at = 0;
  policy_version = "v1";
  decided_at = none;
  decided_by = "";
  decision_comment = "";
  executing_at = none;
  execution_id = "";
  executed_at = none;
  executed_request_id = "";
  executed_decision_id = "";
  failed_at = none;
  last_error_code = "";
  request_decision_id = "d_1";
  action_summary = "DELETE /accounts/7";
  risk = "CRITICAL";
  rule_id = "crm";
  reasons = [];
}

abbrev granted : ApprovalRequest
granted = record delete_account { status = approved; decided_at = some 10; decided_by = "ann" }

abbrev lapsed : ApprovalRequest
lapsed = record delete_account { status = expired; decided_at = some 901 }

abbrev empty : Db
empty = record { approvals = []; decisions = [] }

abbrev waiting : Db
waiting = record { approvals = delete_account ∷ []; decisions = [] }

abbrev ready : Db
ready = record { approvals = granted ∷ []; decisions = [] }

abbrev over : Db
over = record { approvals = lapsed ∷ []; decisions = [] }

-- the life of a request that is approved and executed
abbrev life : List Op
life =
    request delete_account
    ∷ approve "acme" "ar_1" "ann" "" 10
    ∷ claim "acme" "ar_1" "token" "call" 20
    ∷ finish "acme" "ar_1" "r_2" "d_2" 30
    ∷ []

run-life :
    (run life empty).approvals
    ≡ record delete_account {
      status = executed;
      decided_at = some 10;
      decided_by = "ann";
      executing_at = some 20;
      execution_id = "ar_1";
      executed_at = some 30;
      executed_request_id = "r_2";
      executed_decision_id = "d_2";
    }
      ∷ []
unfolding run find_row set_row
run-life = refl

run-IsConsistent_example : All IsConsistent (run life empty).approvals
run-IsConsistent_example =
    run-IsConsistent life empty ((refl, (refl, refl, refl, refl)), (tt, (tt, (tt, tt)))) tt

run-Reach_example :
    (v : ApprovalRequest) × (find_row "acme" "ar_1" (run life waiting).approvals ≡ some v)
    × Reach delete_account v
unfolding find_row
run-Reach_example = run-Reach "acme" "ar_1" life waiting delete_account refl

run-IsFinal_example : find_row "acme" "ar_1" (run life over).approvals ≡ some lapsed
unfolding find_row
run-IsFinal_example = run-IsFinal "acme" "ar_1" life over lapsed refl (inr (inr (inr (inr refl))))

claim_iff_example :
    ((claim_approval_execution true "acme" "ar_1" "token" "call" 20 ready).0 ≡ none) ↔ (
      (r : ApprovalRequest) × (find_row "acme" "ar_1" ready.approvals ≡ some r)
      × IsClaimable "token" "call" 20 r)
claim_iff_example = claim_iff "acme" "ar_1" "token" "call" 20 ready

-- a claim at the expiry comes too late
late_claim :
    (claim_approval_execution true "acme" "ar_1" "token" "call" 900 ready).0 ≡ some invalid_state
unfolding claim_approval_execution find_row set_row
late_claim = refl

claim-claim_example :
    (claim_approval_execution true "acme" "ar_1" "token" "call" 21
      (run life (claim_approval_execution true "acme" "ar_1" "token" "call" 20 ready).1)).0
    ≡ some invalid_state
unfolding claim_approval_execution find_row set_row
claim-claim_example = claim-claim "acme" "ar_1" "token" "call" "token" "call" 20 21 life ready refl

abbrev plain_hash : String → String
plain_hash s = s

abbrev replay : Params
replay = record {
  tenant_id = "acme";
  agent_id = "agent";
  tool_id = "crm";
  request_id = "r_2";
  request_hash = "call";
  classification_risk = "CRITICAL";
  classification_type = "CRM.DELETE";
  classification_summary = "DELETE /accounts/7";
  approval_id = "ar_1";
  approval_token = "token";
}

abbrev calm : Env
calm = record {
  now = 20;
  later = 30;
  decision_id = "d_2";
  lookup_answers = true;
  expire_answers = true;
  claim_answers = true;
  reread_answers = true;
  fail_answers = true;
  mark_answers = true;
  insert_answers = record { exists = true; insert = true };
  before_claim = λ db. db;
  before_reread = λ db. db;
  during_call = λ db. db;
  tool = tool_response 204 "" "";
}

called-Authorised_example : Authorised plain_hash calm replay ready
unfolding replay_code find_row set_row
called-Authorised_example = called-Authorised plain_hash calm replay ready refl

-- a timeout of the tool leaves the request failed
timeout_fails :
    (handle_approved_tool_call plain_hash
      (record calm { tool = upstream_timeout })
      replay
      ready).response
    ≡ failure 504 "upstream_timeout"
unfolding replay_code find_row set_row
timeout_fails = refl

-- At the instant of its expiry an approved request is refused as one that was claimed already.
at_expiry :
    (handle_approved_tool_call plain_hash (record calm { now = 900 }) replay ready).response
    ≡ failure 409 "approval_already_claimed"
unfolding replay_code find_row set_row
at_expiry = refl

handle_approved_tool_call-Recorded_example :
    Recorded plain_hash calm replay
      (λ ds. ds ≡ [])
      (handle_approved_tool_call plain_hash calm replay ready).db
unfolding replay_code find_row set_row
handle_approved_tool_call-Recorded_example =
    handle_approved_tool_call-Recorded plain_hash calm replay (λ ds. ds ≡ []) (λ x h. h) (λ x h. h)
      (λ x h. h) ready
      (record blank {
        request_id = "r_2";
        decision = "ALLOW";
        reason = "Approved execution";
        tool_status = 204;
      })
      refl refl
